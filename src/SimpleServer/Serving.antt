-- ===== src/SimpleServer/Serving.antt =====
-- server/mod.rs: what `handle_next` keeps, from the creation of a server on.
use solicit.Base.{
  ℕ, ◌+◌, ◌≡◌, ◌≢◌, refl, arith, inl, inr, List, [], ◌∷◌, map, Option, none, some, ◌==◌, ==_refl,
  Bool-cases, length, min, drop,
}
use mathlib.Core.Path.{subst}
use solicit.Http.Run.{Run, ok, fault, M, followed_by, ◌>>◌}
use solicit.Http.Response.{Response}
use solicit.Frame.Builder.{Cursor}
use solicit.Session.Stream.{
  DefaultStream, default_stream, local_closed, default_get_data_chunk, next_chunk, read,
}
use solicit.Session.State.{SessionState, server_state, lookup}
use solicit.Session.State.Maps.{Distinct}
use solicit.Priority.Flush.{Flushing}
use solicit.Connection.Defs.{Hpack}
use solicit.Connection.Keeps.{After, Run-cases}
use solicit.Connection.Repeat.{Ends}
use solicit.Transport.{TransportStream, transport_send, transport_receive}
use solicit.SimpleServer.{
  ServerRequest, SimpleServer, simple_factory, handle_requests, handle_next_frame, handle_next,
  prepare_responses, flush_streams, reap_streams,
}
use solicit.SimpleServer.Flush
use solicit.SimpleServer.Flush.{Unanswered}
use solicit.SimpleServer.Flush.Streams.{IsAnswered, get_data_chunk-IsAnswered}
use solicit.SimpleServer.Received
use solicit.SimpleServer.Received.{HasHeaders, Held}
use solicit.SimpleServer.Requests.{
  remote_ids, contains-remote_ids, lookup-remote_ids, run_all_total,
}
use solicit.SimpleServer.Staging.{Staging, prepare_responses-Ends}

-- A stream that has headers, and whose response is staged if its remote end is closed.
abbrev Ready : DefaultStream → Type 0
Ready s = IsAnswered s × HasHeaders s

next_chunk-headers :
    (o : Option Cursor) (buf : List ℕ) (s : DefaultStream)
    → (next_chunk o buf s).0.headers ≡ s.headers
unfolding next_chunk read
next_chunk-headers none buf s = refl
next_chunk-headers (some d) buf s =
    let rest = drop d.position d.buffer in
    elim (Bool-cases (d.position + min (length buf) (length rest) == length d.buffer)) [
      | inl e ↦ rw e refl
      | inr e ↦ rw e refl
    ]

get_data_chunk-headers :
    (buf : List ℕ) (s : DefaultStream) → (default_get_data_chunk buf s).0.headers ≡ s.headers
unfolding default_get_data_chunk
get_data_chunk-headers buf s = elim (Bool-cases (local_closed s.state)) [
  | inl e ↦ rw e refl
  | inr e ↦ rw e (next_chunk-headers s.outgoing buf s)
]

get_data_chunk-Ready :
    (buf : List ℕ) (s : DefaultStream) → Ready s → Ready (default_get_data_chunk buf s).0
get_data_chunk-Ready buf s (a, h) =
    (get_data_chunk-IsAnswered buf s a, rw (get_data_chunk-headers buf s) h)

-- The entries of a map with distinct keys are those that are found.
found-Ready :
    (m : List (ℕ × DefaultStream))
    → Distinct m
    → Flushing HasHeaders m
    → ((j : ℕ) (x : DefaultStream) → lookup j m ≡ some x → IsAnswered x)
    → Flushing Ready m
unfolding lookup
found-Ready [] d f h = tt
found-Ready ((i, s) ∷ m) (fresh, d) ((within, p), f) h = (
  (within, (h i s (rw (==_refl i) refl), p)),
  found-Ready m d f (λ j x found. h j x (ground arith)),
)

Ready-HasHeaders : (m : List (ℕ × DefaultStream)) → Flushing Ready m → Flushing HasHeaders m
Ready-HasHeaders [] f = tt
Ready-HasHeaders ((i, s) ∷ m) ((within, p), f) = ((within, p.1), Ready-HasHeaders m f)

module _ (hpack : Hpack) {T H : Type 0} ⦃ts : TransportStream T⦄
    (writes : (bytes : List ℕ) (t : T) → ts.write_all bytes t ≢ fault)
    (run_handler : ServerRequest → H → Response × H)
    (responds : (r : ServerRequest) (h : H) → (run_handler r h).0.stream_id ≡ r.stream_id) where
  -- Between two frames: no stream waits for a response, every stream has headers and the cursor of
  -- its data within it, and no identifier stands twice.
  abbrev pub Serving : SimpleServer hpack T H → Type 0
  Serving s = Unanswered s × Held s.conn.state

  -- What follows the frame.
  abbrev answers : M (SimpleServer hpack T H) (Unit {0})
  answers s =
      followed_by (handle_requests run_handler s)
        (λ responses. prepare_responses responses >> flush_streams >> reap_streams)

  remote-Staging :
      (rs : List Response) (st : SessionState DefaultStream)
      → Held st
      → map (λ r. r.stream_id) rs ≡ remote_ids st.streams
      → Staging (map (λ r. r.stream_id) rs) st
  remote-Staging rs st h same = rw same (
    h,
    (λ j x found shut empty. contains-remote_ids j x st.streams found shut),
    λ i c. lookup-remote_ids i st.streams c,
  )

  Staging-Ready :
      (st : SessionState DefaultStream)
      → Staging [] st
      → Flushing Ready st.streams × Distinct st.streams
  Staging-Ready st (h, left, there) = (
    found-Ready st.streams h.1 h.0
        (λ j x found shut empty. let no_more = left j x found shut empty in cc),
    h.1,
  )

  answers-Ends : (s : SimpleServer hpack T H) → Held s.conn.state → Ends Serving (answers s)
  unfolding handle_requests
  answers-Ends s h =
      let (rs, handler, done, same) =
        run_all_total run_handler responds s.conn.state.streams s.handler h.0 in
      let s1 : SimpleServer hpack T H = record s { handler = handler } in
      elim (prepare_responses-Ends hpack writes rs s1 (remote-Staging rs s.conn.state h same)) [
        | inr (x, s2, e2) ↦ inr (x, s2, rw (done, e2) refl)
        | inl (s2, e2, staged) ↦
            elim (Flush.reap_streams-flush_streams-Ends hpack writes Ready get_data_chunk-Ready
              (λ x p. p.0) s2 (Staging-Ready s2.conn.state staged)) [
                | inl (s3, e3, (un, (f, d))) ↦
                    inl (s3, rw (done, e2) e3, (un, (Ready-HasHeaders s3.conn.state.streams f, d)))
                | inr (x, s3, e3) ↦ inr (x, s3, rw (done, e2) e3)
              ]
      ]

  -- The frames that a server handled, each without an error.
  pub data Served (s : SimpleServer hpack T H) : SimpleServer hpack T H → Type 0 where
    no_frame : Served s s
    one_more :
        (s1 s2 : SimpleServer hpack T H)
        → Served s s1
        → handle_next run_handler s1 ≡ ok tt s2
        → Served s s2

  handle_next-Serving :
      (s : SimpleServer hpack T H)
      → Held s.conn.state
      → handle_next_frame s ≢ fault
      → Ends Serving (handle_next run_handler s)
  unfolding handle_next
  handle_next-Serving s h taken = elim (Run-cases (handle_next_frame s)) [
    | inl (a, s1, e) ↦
        let held : Held s1.conn.state =
          subst (After (λ (s' : SimpleServer hpack T H). Held s'.conn.state)) e
            (Received.handle_next_frame-Held hpack s h) in
        rw (handle_next, e) (answers-Ends s1 held)
    | inr (inl (x, s1, e)) ↦ inr (x, s1, rw (handle_next, e) refl)
    | inr (inr e) ↦ absurd (taken e)
  ]

  answered_frame :
      (s s' : SimpleServer hpack T H)
      → handle_next run_handler s ≡ ok tt s'
      → handle_next_frame s ≢ fault
  unfolding handle_next
  answered_frame s s' done e =
      let faulted : handle_next run_handler s ≡ fault = rw (handle_next, e) refl in absurd cc

  Ends-ok :
      (r : Run (SimpleServer hpack T H) (Unit {0})) (s : SimpleServer hpack T H)
      → r ≡ ok tt s
      → Ends Serving r
      → Held s.conn.state
  Ends-ok r s done (inl (s', e, serving)) =
      let same : s' ≡ s = cc in
      subst (λ (w : SimpleServer hpack T H). Held w.conn.state) same serving.1
  Ends-ok r s done (inr (x, s', e)) = absurd cc

  Served-Held :
      (s s' : SimpleServer hpack T H) → Held s.conn.state → Served s s' → Held s'.conn.state
  Served-Held s s' h no_frame = h
  Served-Held s s' h (one_more s1 s2 served done) =
      Ends-ok (handle_next run_handler s1) s2 done
        (handle_next-Serving s1 (Served-Held s s1 h served) (answered_frame s1 s2 done))

  -- If no write to the stream panics, the handler's response is always for the stream of the
  -- request, the server began with the state that `new` gives it, and it handled any number of
  -- frames without an error, then `handle_next`, if the receipt of the next frame does not panic,
  -- does not panic either: it gives an error, or a server in which every stream whose remote end is
  -- closed is gone, while those that are left have headers, data whose cursor is within it, and
  -- identifiers that differ.
  pub handle_next_serves :
      (start s : SimpleServer hpack T H)
      → start.conn.state ≡ server_state DefaultStream
      → Served start s
      → handle_next_frame s ≢ fault
      → Ends Serving (handle_next run_handler s)
  unfolding server_state
  handle_next_serves start s fresh served taken =
      let held : Held start.conn.state = rw fresh (tt, tt) in
      handle_next-Serving s (Served-Held start s held served) taken
