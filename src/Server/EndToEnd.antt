-- ===== src/Server/EndToEnd.antt =====
-- http/client/mod.rs and http/server.rs: a request from `start_request` to the server's stream.
use solicit.Base.{
  ℕ, ◌≡◌, ◌≢◌, refl, sym, ◌∙◌, ◌<◌, ◌^◌, [], ◌++◌, append-nil, none, some, length, IsU31,
}
use solicit.Http.Run.{ok}
use solicit.Session.Stream.{Stream}
use solicit.Session.State.{SessionState, insert_outgoing, get_stream_ref, parity_of}
use solicit.Connection.Defs.{Hpack, HttpConnection, SendFrame}
use solicit.Connection.Handle.Block.{IsCodec, owned}
use solicit.Transport.{TransportStream, transport_send, transport_receive}
use solicit.Transport.ReadExact.{IsStream}
use solicit.Transport.Delivery.{octets_of}
use solicit.Client.{RequestStream, start_request}
use solicit.Client
use solicit.Client.Requests.{
  headers_frame-IsWellFormed, block_of, end_of, request_frame, start_request_sends,
}
use solicit.Server.{StreamFactory, handle_next_frame}
use solicit.Server.Requests.{requested, handle_next_frame_opens}

-- If a client starts a request on a stream of octets with nothing written before, on an identifier
-- of 31 bits that is the client's to give and that the server does not know, with a header block of
-- less than 2 ^ 24 octets, and the server's unread octets are those written, then the server's next
-- frame opens the stream: with the headers of the request, its remote end closed exactly if the
-- request's stream was closed locally. The header contexts are in step afterwards.
pub handle_next_frame-start_request :
    (hpack : Hpack) (codec : IsCodec hpack) {T S S' F Tx : Type 0} ⦃ts : TransportStream T⦄
    (stream : IsStream ts) ⦃t : Stream S⦄ ⦃t' : Stream S'⦄ ⦃factory : StreamFactory F S'⦄
    ⦃tx : SendFrame Tx⦄ (req : RequestStream S) (client : SessionState S) (out : T)
    (conn : HttpConnection hpack) (world : Client.World hpack S T) (id : ℕ) (receiver : T)
    (server : SessionState S') (fac : F) (out' : Tx) (conn' : HttpConnection hpack)
    → 0 < client.next_stream_id
    → IsU31 client.next_stream_id
    → length (block_of hpack req conn) < 2 ^ 24
    → stream.written out ≡ []
    → start_request hpack req ((client, out), conn) ≡ ok id world
    → stream.unread receiver ≡ stream.written world.0.1
    → codec.InStep conn.encoder conn'.decoder
    → get_stream_ref server client.next_stream_id ≡ none
    → parity_of client.next_stream_id ≢ server.outgoing_parity
    → (receiver' : T) × (server' : SessionState S') × (d : hpack.Decoder) × (handle_next_frame hpack
          (receiver, ((server, fac, out'), conn'))
        ≡ ok tt
            (receiver', ((server', (factory.create id fac).1, out'), record conn' { decoder = d })))
      × (get_stream_ref server' id ≡ some (requested (end_of hpack req) id req.headers fac))
      × codec.InStep world.1.encoder d
handle_next_frame-start_request hpack codec stream req client out conn world id receiver server fac
      out' conn' pos fits small fresh started same in_step unknown other =
    let w =
      headers_frame-IsWellFormed (block_of hpack req conn) client.next_stream_id (end_of hpack req)
        pos fits small in
    let (after, sent, grown) = start_request_sends hpack stream req client out conn w in
    let encoder : hpack.Encoder = (hpack.encode conn.encoder (owned req.headers)).1 in
    let one : ok client.next_stream_id
          (((insert_outgoing client req.stream).0, after), record conn { encoder = encoder })
        ≡ ok id world =
      sym sent ∙ started in
    let same_id : client.next_stream_id ≡ id = cc in
    let same_world : (
      ((insert_outgoing client req.stream).0, after),
      record conn { encoder = encoder },
    )
        ≡ world =
      cc in
    let octets : stream.unread receiver
        ≡ octets_of (request_frame hpack req client.next_stream_id conn) w ++ [] =
      rw (same, sym same_world, grown, fresh, append-nil) refl in
    let (receiver', server', d, handled, opened, still, left) =
      handle_next_frame_opens hpack stream codec req.headers client.next_stream_id
        (end_of hpack req) conn.encoder [] receiver server fac out' conn' w octets in_step unknown
        other in
    rw (sym same_id, sym same_world) (receiver', server', d, handled, opened, still)
