-- ===== src/SimpleServer/Answer.antt =====
-- server/mod.rs and client/simple.rs: from the responses of the handler to `get_response`.
pub mod Steps
pub mod Prepared
pub mod Handled
use solicit.Base.{
  ℕ, ◌+◌, suc, ◌≤◌, ◌≡◌, ◌≢◌, refl, sym, ap, ◌∙◌, false, inl, inr, List, ◌++◌, append_assoc, Option,
  none, some, value,
}
use mathlib.Core.List.{append_cancel_left}
use mathlib.Core.Path.{subst}
use solicit.Http.Run.{Run, ok, err, fault, ◌>>◌}
use solicit.Http.Response.{Header, Response}
use solicit.Session.Stream.{
  DefaultStream, default_stream, is_closed, local_closed, half_closed_remote,
}
use solicit.Session.Stream.Chunks.{left_over}
use solicit.Session.State.{get_stream_ref, get_closed}
use solicit.Priority.Pending.{pending}
use solicit.Connection.Defs.{Hpack}
use solicit.Connection.Handle.Block.{IsCodec}
use solicit.Connection.Keeps.{Run-cases}
use solicit.Transport.{TransportStream}
use solicit.Transport.ReadExact.{IsStream}
use solicit.SimpleClient.{SimpleClient, get_response}
use solicit.SimpleClient.Arrives.{Closes, get_response-Closes}
use solicit.SimpleServer.{
  ServerRequest, SimpleServer, run_all, handle_requests, prepare_responses, flush_streams,
  reap_streams, handle_next_frame, handle_next,
}
use solicit.SimpleServer.Delivery.{Wrote, Wrote-append, flush_delivers}
use solicit.SimpleServer.Delivery.Turns.{Sendable}
use solicit.SimpleServer.Answer.Handled.{Exec-cases, request_of, answer_of-run_all}
use solicit.SimpleServer.Answer.Prepared.{answer_of, Fitting, Staged, prepare_responses-Prepared}

-- What `handle_next` does after the frame, where it ends without an error.
phases :
    {hpack : Hpack} {T H : Type 0} ⦃ts : TransportStream T⦄ (rs : List Response)
    (s s' : SimpleServer hpack T H)
    → (prepare_responses rs >> flush_streams >> reap_streams) s ≡ ok tt s'
    → (s1 s2 : SimpleServer hpack T H) × (prepare_responses rs s ≡ ok tt s1)
      × (flush_streams s1 ≡ ok tt s2)
      × (reap_streams s2 ≡ ok tt s')
phases rs s s' done = elim (Run-cases (prepare_responses rs s)) [
  | inl (tt, s1, e) ↦ elim (Run-cases (flush_streams s1)) [
    | inl (tt, s2, e') ↦
        let rest : (prepare_responses rs >> flush_streams >> reap_streams) s ≡ reap_streams s2 =
          rw (e, e') refl in
        (s1, s2, e, e', sym rest ∙ done)
    | inr (inl (x, s2, e')) ↦
        let failed : (prepare_responses rs >> flush_streams >> reap_streams) s ≡ err x s2 =
          rw (e, e') refl in
        absurd cc
    | inr (inr e') ↦
        let failed : (prepare_responses rs >> flush_streams >> reap_streams) s ≡ fault =
          rw (e, e') refl in
        absurd cc
  ]
  | inr (inl (x, s1, e)) ↦
      let failed : (prepare_responses rs >> flush_streams >> reap_streams) s ≡ err x s1 =
        rw e refl in
      absurd cc
  | inr (inr e) ↦
      let failed : (prepare_responses rs >> flush_streams >> reap_streams) s ≡ fault = rw e refl in
      absurd cc
]

-- The removal of closed streams writes nothing.
reap_streams-sender :
    {hpack : Hpack} {T H : Type 0} (s s' : SimpleServer hpack T H)
    → reap_streams s ≡ ok tt s'
    → s'.sender ≡ s.sender
unfolding reap_streams
reap_streams-sender s s' done = elim (Exec-cases (get_closed s.conn.state)) [
  | inl ((st, removed), e) ↦
      let after : SimpleServer _ _ _ = record s { conn = record s.conn { state = st } } in
      let result : reap_streams s ≡ ok tt after = rw (reap_streams, e) refl in
      let same : after ≡ s' = cc in ap (λ z. z.sender) (sym same)
  | inr e ↦ let failed : reap_streams s ≡ fault = rw (reap_streams, e) refl in absurd cc
]

module _ {hpack : Hpack} (codec : IsCodec hpack) {T H : Type 0} ⦃ts : TransportStream T⦄
    (stream : IsStream ts) where
  -- From the preparation of the responses on.
  get_response-prepare_responses :
      (rs : List Response) (r : Response) (s s1 s' : SimpleServer hpack T H) (y : DefaultStream)
      (k : SimpleClient hpack T) (x : DefaultStream) (j : ℕ) (octets rest : List ℕ)
      → prepare_responses rs s ≡ ok tt s1
      → flush_streams s1 ≡ ok tt s'
      → answer_of j rs none ≡ some r
      → Fitting hpack s.conn.conn.encoder rs
      → Sendable s.conn.state.streams
      → get_stream_ref s.conn.state j ≡ some y
      → local_closed y.state ≡ false
      → stream.written s'.sender ≡ stream.written s.sender ++ octets
      → stream.unread k.receiver ≡ octets ++ rest
      → codec.InStep s.conn.conn.encoder k.conn.conn.decoder
      → k.conn.conn.in_window_size ≡ s.conn.conn.out_window_size
      → get_stream_ref k.conn.state j ≡ some x
      → is_closed x ≡ false
      → (n : ℕ) × (k' : SimpleClient hpack T) × ((more : ℕ)
          → get_response (n + more) j k
            ≡ ok (record { stream_id = j; headers = r.headers; body = x.body ++ r.body }) k')
  unfolding flush_streams
  get_response-prepare_responses rs r s s1 s' y k x j octets rest prepared flushed answer fits good
        found writable wrote unread in_step window at opened =
      let (octets1, y1, wrote1, window1, good1, found1, state1, staged, tells) =
        prepare_responses-Prepared codec stream j rs s s1 none y prepared fits good found tt in
      let staged_r : Staged (some r) y1 = subst (λ o. Staged o y1) answer staged in
      let (octets2, wrote2, delivers) =
        flush_delivers stream j (suc (pending s1.conn.state.streams)) s1 s' y1 flushed good1 found1
          (rw state1 writable) (λ missing. absurd cc) in
      let split : octets ≡ octets1 ++ octets2 =
        append_cancel_left (stream.written s.sender) octets (octets1 ++ octets2) (
          sym wrote
          ∙ Wrote-append stream octets1 octets2 s.sender s1.sender s'.sender wrote1 wrote2) in
      let whole : left_over y1.outgoing ≡ r.body = rw staged_r refl in
      let closes : Closes j k (x.body ++ r.body) (some r.headers) =
        tells k x (octets2 ++ rest) (x.body ++ r.body) (some r.headers)
          (unread ∙ rw split (append_assoc octets1 octets2 rest)) in_step at opened tt
          (λ k1 x1 left same at1 opened1 informed body1.
            let known : x1.headers ≡ some r.headers =
              subst (λ o. solicit.SimpleServer.Answer.Prepared.Informed o x1) answer informed in
            subst (λ b. Closes j k1 b (some r.headers))
              (ap (λ b. b ++ left_over y1.outgoing) body1 ∙ ap (λ z. x.body ++ z) whole)
              (subst (Closes j k1 (x1.body ++ left_over y1.outgoing)) known
                (delivers k1 x1 rest left (same ∙ window ∙ sym window1) at1 opened1))) in
      get_response-Closes j k (x.body ++ r.body) r.headers closes

  -- Over streams that give their octets in order and take every write, and with a header codec that
  -- keeps its contract: if a server receives a frame without an error, after which a stream has headers, its remote end
  -- closed and its local end open, and `handle_next` for this frame ends without an error, where the
  -- handler responds for the stream of each request, the header blocks of its responses are below
  -- 2 ^ 24 octets and for identifiers of 31 bits, as are those of the streams, no two of which are
  -- the same, and the cursors of all data lie within it; and if a client, whose stream of this
  -- identifier is not closed, has what `handle_next` wrote next to read, with the inbound window that
  -- the server has outbound and the decoder in step with the server's encoder: then, with the frames
  -- that it takes, or more, `get_response` returns the headers of the handler's response to the
  -- request that the stream is, and its body behind that which the client's stream had.
  pub get_response-handle_next :
      (run_handler : ServerRequest → H → Response × H)
      (responds : (r : ServerRequest) (h : H) → (run_handler r h).0.stream_id ≡ r.stream_id)
      (s s1 s' : SimpleServer hpack T H) (rs : List Response) (h' : H) (y : DefaultStream)
      (hs : List Header) (k : SimpleClient hpack T) (x : DefaultStream) (j : ℕ)
      (octets rest : List ℕ)
      → handle_next_frame s ≡ ok tt s1
      → handle_next run_handler s ≡ ok tt s'
      → run_all run_handler s1.conn.state.streams s1.handler ≡ value (rs, h')
      → Fitting hpack s1.conn.conn.encoder rs
      → Sendable s1.conn.state.streams
      → get_stream_ref s1.conn.state j ≡ some y
      → y.state ≡ half_closed_remote
      → y.headers ≡ some hs
      → stream.written s'.sender ≡ stream.written s1.sender ++ octets
      → stream.unread k.receiver ≡ octets ++ rest
      → codec.InStep s1.conn.conn.encoder k.conn.conn.decoder
      → k.conn.conn.in_window_size ≡ s1.conn.conn.out_window_size
      → get_stream_ref k.conn.state j ≡ some x
      → is_closed x ≡ false
      → (h : H) × (n : ℕ) × (k' : SimpleClient hpack T) × (let r =
            (run_handler (request_of j hs y) h).0 in
          (more : ℕ)
          → get_response (n + more) j k
            ≡ ok (record { stream_id = j; headers = r.headers; body = x.body ++ r.body }) k')
  unfolding handle_next handle_requests get_stream_ref
  get_response-handle_next run_handler responds s s1 s' rs h' y hs k x j octets rest framed done ran
        fits good found state has wrote unread in_step window at opened =
      let s2 : SimpleServer hpack T H = record s1 { handler = h' } in
      let run : handle_next run_handler s
          ≡ (prepare_responses rs >> flush_streams >> reap_streams) s2 =
        rw (handle_next, framed, ran) refl in
      let (s3, s4, prepared, flushed, reaped) = phases rs s2 s' (sym run ∙ done) in
      let (h, answer) =
        answer_of-run_all run_handler responds j s1.conn.state.streams s1.handler rs h' none y hs
          ran good.1 found (rw state refl) has in
      let wrote4 : stream.written s4.sender ≡ stream.written s2.sender ++ octets =
        ap stream.written (sym (reap_streams-sender s4 s' reaped)) ∙ wrote in
      let (n, k', responded) =
        get_response-prepare_responses rs (run_handler (request_of j hs y) h).0 s2 s3 s4 y k x j
          octets rest prepared flushed answer fits good found (rw state refl) wrote4 unread in_step
          window at opened in
      (h, n, k', responded)
