-- ===== src/Server/Requests.antt =====
-- http/server.rs: a request that a client starts becomes a stream of the server.
use solicit.Base.{ℕ, ◌≡◌, ◌≢◌, refl, ◌∙◌, inl, inr, List, ◌++◌, none, some, if◌then◌else◌, ==_refl}
use solicit.Http.Run.{ok}
use solicit.Http.Response.{Header}
use solicit.Session.Stream.{Stream, close_remote}
use solicit.Session.State.{SessionState, insert_incoming, change_stream, get_stream_ref, parity_of}
use solicit.Session.State.Ids.{insert_incoming_cases}
use solicit.Session.State.Maps.{lookup-update}
use solicit.Priority.{EndStream, yes_end, no_end}
use solicit.Connection.HttpFrame.{HttpFrame}
use solicit.Connection.HttpFrame.RoundTrip.{IsWellFormed}
use solicit.Connection.Defs.{Hpack, HttpConnection, SendFrame}
use solicit.Connection.Send.{headers_frame}
use solicit.Connection.Handle
use solicit.Connection.Handle.{signal_end, handle_frame}
use solicit.Connection.Handle.Block.{IsCodec, owned, ends, handle_frame-headers_frame}
use solicit.Transport.{TransportStream, transport_receive}
use solicit.Transport.ReadExact.{IsStream}
use solicit.Transport.Delivery.{octets_of, recv_frame-octets}
use solicit.Server.{StreamFactory, server_session, new_headers, on_stream, handle_next_frame}

module _ {S F : Type 0} ⦃t : Stream S⦄ ⦃factory : StreamFactory F S⦄ where
  -- The stream that the server makes for a request.
  abbrev pub opened : ℕ → List Header → F → S
  opened id hs fac = t.set_headers hs (factory.create id fac).0

  -- The new stream, its remote end closed if the request ended with its headers.
  abbrev pub requested : EndStream → ℕ → List Header → F → S
  requested e id hs fac = if ends e then close_remote (opened id hs fac) else opened id hs fac

module _ {S : Type 0} where
  accepted_at :
      (id : ℕ) (s : S) (st : SessionState S)
      → parity_of id ≢ st.outgoing_parity
      → get_stream_ref (insert_incoming st id s).0 id ≡ some s
  accepted_at id s st other = elim (insert_incoming_cases st id s id) [
    | inl (same, _, _) ↦ absurd (other same)
    | inr (_, accepted, at_id) ↦ at_id ∙ rw (==_refl id) refl
  ]

module _ (hpack : Hpack) {S F Tx : Type 0} ⦃t : Stream S⦄ ⦃factory : StreamFactory F S⦄
    ⦃tx : SendFrame Tx⦄ where
  new_headers_opens :
      (id : ℕ) (hs : List Header) (st : SessionState S) (fac : F) (out : Tx)
      (conn : HttpConnection hpack)
      → get_stream_ref st id ≡ none
      → new_headers hpack id hs ((st, fac, out), conn)
        ≡ ok tt
            (((insert_incoming st id (opened id hs fac)).0, (factory.create id fac).1, out), conn)
  unfolding new_headers
  new_headers_opens id hs st fac out conn unknown = rw (new_headers, unknown) refl

  signal_end_marks :
      (e : EndStream) (id : ℕ) (hs : List Header) (st : SessionState S) (before fac : F) (out : Tx)
      (conn : HttpConnection hpack)
      → get_stream_ref st id ≡ some (opened id hs before)
      → (st' : SessionState S) × (signal_end hpack
            (server_session hpack)
            (ends e)
            id
            ((st, fac, out), conn)
          ≡ ok tt ((st', fac, out), conn))
        × (get_stream_ref st' id ≡ some (requested e id hs before))
  unfolding signal_end on_stream change_stream get_stream_ref
  signal_end_marks no_end id hs st before fac out conn found = (st, refl, found)
  signal_end_marks yes_end id hs st before fac out conn found = (
    change_stream st id close_remote,
    refl,
    lookup-update id id close_remote st.streams ∙ rw (==_refl id, found) refl,
  )

  -- A server whose unread octets start with a HEADERS frame, as `send_headers` builds it, on a stream
  -- that it does not know and whose identifier is the client's to give, opens a stream for it: with
  -- the headers that were sent, its remote end closed exactly if the frame ends the stream. The
  -- decoder stays in step with the sender's encoder, and the octets behind the frame are left.
  pub handle_next_frame_opens :
      {T : Type 0} ⦃ts : TransportStream T⦄ (stream : IsStream ts) (codec : IsCodec hpack)
      (hs : List Header) (id : ℕ) (e : EndStream) (encoder : hpack.Encoder) (rest : List ℕ)
      (receiver : T) (st : SessionState S) (fac : F) (out : Tx) (conn : HttpConnection hpack)
      (w : IsWellFormed
        (HttpFrame.headers_frame (headers_frame (hpack.encode encoder (owned hs)).0 id e)))
      → stream.unread receiver
        ≡ octets_of
            (HttpFrame.headers_frame (headers_frame (hpack.encode encoder (owned hs)).0 id e))
            w
          ++ rest
      → codec.InStep encoder conn.decoder
      → get_stream_ref st id ≡ none
      → parity_of id ≢ st.outgoing_parity
      → (receiver' : T) × (st' : SessionState S) × (d : hpack.Decoder) × (handle_next_frame hpack
            (receiver, ((st, fac, out), conn))
          ≡ ok tt (receiver', ((st', (factory.create id fac).1, out), record conn { decoder = d })))
        × (get_stream_ref st' id ≡ some (requested e id hs fac))
        × codec.InStep (hpack.encode encoder (owned hs)).1 d
        × (stream.unread receiver' ≡ rest)
  unfolding handle_next_frame Handle.handle_next_frame
  handle_next_frame_opens stream codec hs id e encoder rest receiver st fac out conn w octets
        in_step unknown other =
      let frame =
        HttpFrame.headers_frame (headers_frame (hpack.encode encoder (owned hs)).0 id e) in
      let (receiver', got, left) = recv_frame-octets stream frame w rest receiver octets in
      let (d, handled, still) =
        handle_frame-headers_frame hpack codec (server_session hpack) hs id e encoder (st, fac, out)
          conn in_step in
      let conn' : HttpConnection hpack = record conn { decoder = d } in
      let opens = new_headers_opens id hs st fac out conn' unknown in
      let inserted = (insert_incoming st id (opened id hs fac)).0 in
      let found : get_stream_ref inserted id ≡ some (opened id hs fac) =
        accepted_at id (opened id hs fac) st other in
      let (st', ended, at_id) =
        signal_end_marks e id hs inserted fac (factory.create id fac).1 out conn' found in
      (receiver', st', d, rw (got, handled, opens, ended) refl, at_id, still, left)
