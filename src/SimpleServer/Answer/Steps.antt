-- ===== src/SimpleServer/Answer/Steps.antt =====
-- server/mod.rs and client/simple.rs: a response that is prepared, and the client's next frame.
use solicit.Base.{
  ℕ, ◌^◌, ◌<◌, ◌≡◌, refl, sym, ap, ◌∙◌, arith, inl, inr, List, [], ◌∷◌, ◌++◌, map, some, length,
  ◌==◌, if◌then◌else◌, Bool-cases, Option-cases,
}
use solicit.Http.Run.{ok, fault}
use solicit.Http.Response.{Header, Response, new_header}
use solicit.Session.Stream.{DefaultStream, default_stream, default_set_headers, set_full_data}
use solicit.Session.State.{lookup, update, get_stream_ref, change_stream}
use solicit.Session.State.Maps.{AllKeys, lookup-update, update-Distinct}
use solicit.Priority.{no_end}
use solicit.Priority.Chunks.{InBounds}
use solicit.Connection.HttpFrame.{HttpFrame}
use solicit.Connection.HttpFrame
use solicit.Connection.Defs.{Hpack}
use solicit.Connection.Send.{headers_frame, send_headers, on_second}
use solicit.Connection.Send
use solicit.Connection.Handle
use solicit.Connection.Handle.{signal_end, handle_frame}
use solicit.Connection.Handle.Block.{IsCodec, owned, handle_frame-headers_frame}
use solicit.Transport.{TransportStream, transport_send, transport_receive}
use solicit.Transport.ReadExact.{IsStream}
use solicit.Transport.Delivery.{octets_of, send_frame-octets, recv_frame-octets}
use solicit.Client
use solicit.Client.{client_session, on_stream}
use solicit.Client.Requests.{headers_frame-IsWellFormed}
use solicit.Server
use solicit.SimpleClient.{SimpleClient}
use solicit.SimpleClient
use solicit.SimpleServer.{SimpleServer, simple_factory, on_conn, stage, prepare_responses}
use solicit.SimpleServer.Delivery.{Wrote}
use solicit.SimpleServer.Delivery.Turns.{IsId, Sendable}

update-InBounds :
    (k : ℕ) (bytes : List ℕ) (m : List (ℕ × DefaultStream))
    → InBounds m
    → InBounds (update k (set_full_data bytes) m)
unfolding update set_full_data
update-InBounds k bytes [] h = tt
update-InBounds k bytes ((i, s) ∷ m) (within, h) = elim (Bool-cases (i == k)) [
  | inl e ↦ rw e (omega arith, update-InBounds k bytes m h)
  | inr e ↦ rw e (within, update-InBounds k bytes m h)
]

update-AllKeys :
    (P : ℕ → Type 0) (k : ℕ) (f : DefaultStream → DefaultStream) (m : List (ℕ × DefaultStream))
    → AllKeys P m
    → AllKeys P (update k f m)
unfolding update
update-AllKeys P k f [] h = tt
update-AllKeys P k f ((i, s) ∷ m) (p, h) = elim (Bool-cases (i == k)) [
  | inl e ↦ rw e (p, update-AllKeys P k f m h)
  | inr e ↦ rw e (p, update-AllKeys P k f m h)
]

pub update-Sendable :
    (k : ℕ) (bytes : List ℕ) (m : List (ℕ × DefaultStream))
    → Sendable m
    → Sendable (update k (set_full_data bytes) m)
update-Sendable k bytes m (within, d, keys) = (
  update-InBounds k bytes m within,
  update-Distinct k (set_full_data bytes) m d,
  update-AllKeys IsId k (set_full_data bytes) m keys,
)

pub headers_copied : (hs : List Header) → map (λ h. new_header h.name h.value) hs ≡ hs
unfolding new_header
headers_copied [] = refl
headers_copied (h ∷ hs) = ap (◌∷◌ h) (headers_copied hs)

module _ (hpack : Hpack) where
  abbrev pub block : hpack.Encoder → Response → List ℕ
  block encoder r = (hpack.encode encoder (owned r.headers)).0

  abbrev pub next_encoder : hpack.Encoder → Response → hpack.Encoder
  next_encoder encoder r = (hpack.encode encoder (owned r.headers)).1

  -- The response is for the identifier of a stream, and its header block fits into a frame.
  abbrev pub Sends : hpack.Encoder → Response → Type 0
  Sends encoder r = IsId r.stream_id × (length (block encoder r) < 2 ^ 24)

  abbrev pub headers_octets : (encoder : hpack.Encoder) (r : Response) → Sends encoder r → List ℕ
  headers_octets encoder r (id, small) =
      octets_of (HttpFrame.headers_frame (headers_frame (block encoder r) r.stream_id no_end))
        (headers_frame-IsWellFormed (block encoder r) r.stream_id no_end id.0 id.1 small)

module _ {hpack : Hpack} {T : Type 0} ⦃ts : TransportStream T⦄ (stream : IsStream ts) where
  -- The first of the responses is prepared: its headers are written, and its body is staged.
  pub prepare_responses-first :
      {H : Type 0} (r : Response) (rs : List Response) (s s' : SimpleServer hpack T H)
      (fits : Sends hpack s.conn.conn.encoder r)
      → prepare_responses (r ∷ rs) s ≡ ok tt s'
      → (s1 : SimpleServer hpack T H) × (prepare_responses rs s1 ≡ ok tt s')
        × (s1.conn.state ≡ change_stream s.conn.state r.stream_id (set_full_data r.body))
        × (s1.conn.conn ≡ record s.conn.conn { encoder = next_encoder hpack s.conn.conn.encoder r })
        × Wrote stream (headers_octets hpack s.conn.conn.encoder r fits) s.sender s1.sender
  unfolding prepare_responses on_conn Server.start_response send_headers Send.send_frame stage
      HttpFrame.serialize_into get_stream_ref
  prepare_responses-first r rs s s' (id, small) done =
      let encoder = s.conn.conn.encoder in
      let frame =
        HttpFrame.headers_frame (headers_frame (block hpack encoder r) r.stream_id no_end) in
      let w =
        headers_frame-IsWellFormed (block hpack encoder r) r.stream_id no_end id.0 id.1 small in
      let (t', sent_one, grown) = send_frame-octets stream frame w s.sender in
      elim (Option-cases (lookup r.stream_id s.conn.state.streams)) [
        | inl e ↦
            let failed : prepare_responses (r ∷ rs) s ≡ fault = rw (sent_one, e) refl in absurd cc
        | inr (x, e) ↦
            let s1 : SimpleServer _ T _ = record s {
              sender = t';
              conn = record {
                conn = record s.conn.conn { encoder = next_encoder hpack encoder r };
                state = change_stream s.conn.state r.stream_id (set_full_data r.body);
              };
            } in
            let rest : prepare_responses (r ∷ rs) s ≡ prepare_responses rs s1 =
              rw (sent_one, e) refl in
            (s1, sym rest ∙ done, refl, refl, grown)
      ]

  -- A client whose unread octets begin with the headers of a response takes them.
  pub handle_next_frame-headers_octets :
      (codec : IsCodec hpack) (encoder : hpack.Encoder) (r : Response)
      (fits : Sends hpack encoder r) (k : SimpleClient hpack T) (rest : List ℕ)
      → stream.unread k.receiver ≡ headers_octets hpack encoder r fits ++ rest
      → codec.InStep encoder k.conn.conn.decoder
      → (k' : SimpleClient hpack T) × (SimpleClient.handle_next_frame k ≡ ok tt k')
        × (stream.unread k'.receiver ≡ rest)
        × (k'.conn.conn.in_window_size ≡ k.conn.conn.in_window_size)
        × codec.InStep (next_encoder hpack encoder r) k'.conn.conn.decoder
        × ((j : ℕ) (x : DefaultStream)
            → get_stream_ref k.conn.state j ≡ some x
            → get_stream_ref k'.conn.state j
              ≡ some (if r.stream_id == j then default_set_headers r.headers x else x))
  unfolding SimpleClient.handle_next_frame SimpleClient.on_conn Client.handle_next_frame
      Handle.handle_next_frame signal_end on_stream change_stream get_stream_ref
  handle_next_frame-headers_octets codec encoder r (id, small) k rest octets in_step =
      let frame =
        HttpFrame.headers_frame (headers_frame (block hpack encoder r) r.stream_id no_end) in
      let w =
        headers_frame-IsWellFormed (block hpack encoder r) r.stream_id no_end id.0 id.1 small in
      let (rx, got, left) = recv_frame-octets stream frame w rest k.receiver octets in
      let (d, handled, still) =
        handle_frame-headers_frame hpack codec (client_session hpack) r.headers r.stream_id no_end
          encoder (k.conn.state, k.sender) k.conn.conn in_step in
      (
        record k {
          receiver = rx;
          conn = record {
            conn = record k.conn.conn { decoder = d };
            state = change_stream k.conn.state r.stream_id (default_set_headers r.headers);
          };
        },
        rw (got, handled) refl,
        left,
        refl,
        still,
        λ j x found.
            lookup-update r.stream_id j (default_set_headers r.headers) k.conn.state.streams
            ∙ elim (Bool-cases (r.stream_id == j)) [
              | inl e ↦ rw (e, found) refl
              | inr e ↦ rw (e, found) refl
            ],
      )
