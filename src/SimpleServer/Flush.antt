-- ===== src/SimpleServer/Flush.antt =====
-- server/mod.rs: the flushing of streams with responses, and the removal of those that are closed.
pub mod Streams
use solicit.Base.{
  OnValue, bind-OnValue, OnValue-any, unwrap, ℕ, suc, ◌+◌, ◌≡◌, ◌≢◌, refl, sym, ap, ◌∙◌, arith,
  true, false, inl, inr, ◌⊎◌, List, [], ◌∷◌, Option, none, some, length, min, drop, ◌==◌,
  if◌then◌else◌, Bool-cases,
}
use mathlib.Core.Path.{subst}
use solicit.Http.Run.{Run, ok, err, fault, ◌>>◌}
use solicit.Frame.Builder.{Cursor}
use solicit.Session.Stream.{
  DefaultStream, default_stream, default_get_data_chunk, next_chunk, read, remote_closed,
  local_closed, StreamState, fully_closed, is_closed,
}
use solicit.Session.State.{
  SessionState, lookup, remove, remove_all, remove_stream, get_closed, closed_ids,
}
use solicit.Session.State.Maps.{Distinct, remove-Distinct}
use solicit.Session.State.Closed.{closed_at, get_closed_total}
use solicit.Priority.Total.{ids}
use solicit.Priority.Pending.{pending}
use solicit.Priority.Flush.{Flushing, Flushed}
use solicit.Connection.Defs.{Hpack, HttpConnection}
use solicit.Connection.Send.{SendStatus, sent, nothing}
use solicit.Connection.Send
use solicit.Connection.Repeat.{Ends, Progress, repeat-Ends}
use solicit.Transport.{TransportStream, transport_send}
use solicit.Client.{simple_prioritizer, max_chunk_size}
use solicit.Client.Flush.{Sends, send_next_data-Sends}
use solicit.Server
use solicit.SimpleServer.{SimpleServer, simple_factory, send_next_data, flush_streams, reap_streams}
use solicit.SimpleServer.Flush.Streams.{
  IsAnswered, ids-Distinct, found-Flushing, found-Flushed, both_closed, left_found,
  get_closed-Keeps,
}

-- The streams that are left have an open remote end.
abbrev pub Unanswered : {hpack : Hpack} {T H : Type 0} → SimpleServer hpack T H → Type 0
Unanswered s =
    (j : ℕ) (x : DefaultStream)
    → lookup j s.conn.state.streams ≡ some x
    → remote_closed x.state ≡ false

module _ {hpack : Hpack} {T H : Type 0} where
  -- The result of `send_next_data`, for that of the sender.
  abbrev pub after_send :
      SimpleServer hpack T H
      → Run ((HttpConnection hpack × T) × SessionState DefaultStream) SendStatus
      → Run (SimpleServer hpack T H) SendStatus
  after_send s (ok a ((conn, out), st)) =
      ok a (record s { sender = out; conn = record { conn = conn; state = st } })
  after_send s (err e ((conn, out), st)) =
      err e (record s { sender = out; conn = record { conn = conn; state = st } })
  after_send s fault = fault

  module _ ⦃ts : TransportStream T⦄ where
    pub send_next_data-after_send :
        (s : SimpleServer hpack T H)
        (run : Run ((HttpConnection hpack × T) × SessionState DefaultStream) SendStatus)
        → Send.send_next_data hpack
            (simple_prioritizer max_chunk_size)
            ((s.conn.conn, s.sender), s.conn.state)
          ≡ run
        → send_next_data s ≡ after_send s run
    unfolding send_next_data Server.send_next_data
    send_next_data-after_send s (ok a w) e = rw (send_next_data, Server.send_next_data, e) refl
    send_next_data-after_send s (err x w) e = rw (send_next_data, Server.send_next_data, e) refl
    send_next_data-after_send s fault e = rw (send_next_data, Server.send_next_data, e) refl

module _ (hpack : Hpack) {T H : Type 0} ⦃ts : TransportStream T⦄
    (writes : (bytes : List ℕ) (t : T) → ts.write_all bytes t ≢ fault) (P : DefaultStream → Type 0)
    (keep : (buf : List ℕ) (s : DefaultStream) → P s → P (default_get_data_chunk buf s).0)
    (answered : (s : DefaultStream) → P s → IsAnswered s) where
  -- Every stream has the property, with the cursor of its data within it, and no identifier is twice.
  abbrev pub Good : SimpleServer hpack T H → Type 0
  Good s = Flushing P s.conn.state.streams × Distinct s.conn.state.streams

  abbrev pub Over : SimpleServer hpack T H → Type 0
  Over s = Good s × Flushed s.conn.state.streams

  abbrev left : SimpleServer hpack T H → ℕ
  left s = pending s.conn.state.streams

  turn_cases :
      (s : SimpleServer hpack T H)
      (run : Run ((HttpConnection hpack × T) × SessionState DefaultStream) SendStatus)
      → Send.send_next_data hpack
          (simple_prioritizer max_chunk_size)
          ((s.conn.conn, s.sender), s.conn.state)
        ≡ run
      → Good s
      → Sends hpack writes P keep s.conn.state (s.conn.conn, s.sender) run
      → Progress send_next_data Good Over left s
  unfolding send_next_data Server.send_next_data
  turn_cases s run e good (inl ((conn, out), m, e', good', less, same)) =
      let after : SimpleServer hpack T H = record s {
        sender = out;
        conn = record { conn = conn; state = record s.conn.state { streams = m } };
      } in
      inl (
        after,
        send_next_data-after_send s run e ∙ ap (after_send s) e',
        (good', ids-Distinct s.conn.state.streams m same good.1),
        less,
      )
  turn_cases s run e good (inr (inl (e', over))) =
      inr (inl (s, send_next_data-after_send s run e ∙ ap (after_send s) e', (good, over)))
  turn_cases s run e good (inr (inr (x, ((conn, out), st), e'))) =
      let after : SimpleServer hpack T H = record s {
        sender = out;
        conn = record { conn = conn; state = st };
      } in
      inr (inr (x, after, send_next_data-after_send s run e ∙ ap (after_send s) e'))

  pub flush_streams-Ends : (s : SimpleServer hpack T H) → Good s → Ends Over (flush_streams s)
  unfolding flush_streams
  flush_streams-Ends s good =
      repeat-Ends send_next_data Good Over left
        (λ w g. turn_cases w _ refl g (
          send_next_data-Sends hpack writes P keep max_chunk_size w.conn.state w.conn.conn w.sender
            (omega arith) g.0))
        (suc (pending s.conn.state.streams)) s (omega arith) good

  reap_streams-Ends :
      (s : SimpleServer hpack T H) → Over s → Ends (λ s'. Unanswered s' × Good s') (reap_streams s)
  unfolding reap_streams is_closed
  reap_streams-Ends s ((good, d), over) =
      let (st, removed, done, count, left_are) = get_closed_total s.conn.state d in
      inl (
        record s { conn = record s.conn { state = st } },
        rw done refl,
        (
          (λ j x found. elim (Bool-cases (remote_closed x.state)) [
            | inr e ↦ e
            | inl e ↦
                let (was, not_closed) =
                  left_found (lookup j s.conn.state.streams) x (sym (left_are j) ∙ found) in
                elim (found-Flushed j x s.conn.state.streams over was) [
                  | inl l ↦
                      let closed_x : fully_closed x.state ≡ true = both_closed x.state e l in
                      absurd cc
                  | inr missing ↦
                      absurd
                        (answered x (found-Flushing P j x s.conn.state.streams good was) e missing)
                ]
          ]),
          subst (OnValue (λ p. Flushing P p.0.streams × Distinct p.0.streams)) done
              (get_closed-Keeps P s.conn.state (good, d)),
        ),
      )

  -- A server all of whose streams are good is left with good streams whose remote end is open.
  pub reap_streams-flush_streams-Ends :
      (s : SimpleServer hpack T H)
      → Good s
      → Ends (λ s'. Unanswered s' × Good s') ((flush_streams >> reap_streams) s)
  reap_streams-flush_streams-Ends s good = elim (flush_streams-Ends s good) [
    | inl (s', e, over) ↦ elim (reap_streams-Ends s' over) [
      | inl (s'', e', rest) ↦ inl (s'', rw (e, e') refl, rest)
      | inr (x, s'', e') ↦ inr (x, s'', rw (e, e') refl)
    ]
    | inr (x, s', e) ↦ inr (x, s', rw e refl)
  ]
