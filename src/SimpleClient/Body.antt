-- ===== src/SimpleClient/Body.antt =====
-- client/simple.rs: `request` sends the whole body.
use solicit.Base.{ℕ, suc, ◌≡◌, ◌≢◌, refl, ap, ◌∙◌, arith, inl, inr, List}
use solicit.Http.Run.{Run, ok, err, fault}
use solicit.Session.Stream.{DefaultStream, default_stream}
use solicit.Session.State.{SessionState}
use solicit.Priority.Pending.{pending}
use solicit.Priority.Flush.{Flushing, Flushed}
use solicit.Connection.Defs.{Hpack, HttpConnection}
use solicit.Connection.Send.{SendStatus}
use solicit.Connection.Send
use solicit.Connection.Repeat.{Ends, Progress, repeat-Ends}
use solicit.Transport.{TransportStream, transport_send}
use solicit.Client.{simple_prioritizer, max_chunk_size}
use solicit.Client.Flush.{Sends, send_next_data-Sends}
use solicit.Client
use solicit.SimpleClient.{SimpleClient, send_next_data, send_body}

module _ (hpack : Hpack) {T : Type 0} ⦃ts : TransportStream T⦄
    (writes : (bytes : List ℕ) (t : T) → ts.write_all bytes t ≢ fault) where
  abbrev pub CursorsInData : SimpleClient hpack T → Type 0
  CursorsInData c = Flushing (λ s. Unit {0}) c.conn.state.streams

  abbrev pub NothingLeft : SimpleClient hpack T → Type 0
  NothingLeft c = Flushed c.conn.state.streams

  -- The result of `send_next_data`, for that of the sender.
  abbrev after_send :
      SimpleClient hpack T
      → Run ((HttpConnection hpack × T) × SessionState DefaultStream) SendStatus
      → Run (SimpleClient hpack T) SendStatus
  after_send c (ok a ((conn, out), st)) =
      ok a (record c { sender = out; conn = record { conn = conn; state = st } })
  after_send c (err e ((conn, out), st)) =
      err e (record c { sender = out; conn = record { conn = conn; state = st } })
  after_send c fault = fault

  send_next_data-after_send :
      (c : SimpleClient hpack T)
      (run : Run ((HttpConnection hpack × T) × SessionState DefaultStream) SendStatus)
      → Send.send_next_data hpack
          (simple_prioritizer max_chunk_size)
          ((c.conn.conn, c.sender), c.conn.state)
        ≡ run
      → send_next_data c ≡ after_send c run
  unfolding send_next_data Client.send_next_data
  send_next_data-after_send c (ok a w) e = rw (send_next_data, Client.send_next_data, e) refl
  send_next_data-after_send c (err x w) e = rw (send_next_data, Client.send_next_data, e) refl
  send_next_data-after_send c fault e = rw (send_next_data, Client.send_next_data, e) refl

  turn_cases :
      (c : SimpleClient hpack T)
      (run : Run ((HttpConnection hpack × T) × SessionState DefaultStream) SendStatus)
      → Send.send_next_data hpack
          (simple_prioritizer max_chunk_size)
          ((c.conn.conn, c.sender), c.conn.state)
        ≡ run
      → CursorsInData c
      → Sends hpack writes (λ s. Unit {0}) (λ buf s p. p) c.conn.state (c.conn.conn, c.sender) run
      → Progress send_next_data CursorsInData NothingLeft (λ c'. pending c'.conn.state.streams) c
  turn_cases c run e good (inl ((conn, out), m, e', good', less, same)) =
      let after : SimpleClient hpack T = record c {
        sender = out;
        conn = record { conn = conn; state = record c.conn.state { streams = m } };
      } in
      inl (after, send_next_data-after_send c run e ∙ ap (after_send c) e', good', less)
  turn_cases c run e good (inr (inl (e', over))) =
      inr (inl (c, send_next_data-after_send c run e ∙ ap (after_send c) e', over))
  turn_cases c run e good (inr (inr (x, ((conn, out), st), e'))) =
      let after : SimpleClient hpack T = record c {
        sender = out;
        conn = record { conn = conn; state = st };
      } in
      inr (inr (x, after, send_next_data-after_send c run e ∙ ap (after_send c) e'))

  -- If the stream of octets never panics on a write and the cursors of all data to send are within
  -- it, the loop of `request` ends: with an error, or with every stream of the session closed locally
  -- or without data.
  pub send_body-Ends : (c : SimpleClient hpack T) → CursorsInData c → Ends NothingLeft (send_body c)
  unfolding send_body
  send_body-Ends c good =
      repeat-Ends send_next_data CursorsInData NothingLeft (λ c'. pending c'.conn.state.streams)
        (λ w g. turn_cases w _ refl g (
          send_next_data-Sends hpack writes (λ s. Unit {0}) (λ buf s p. p) max_chunk_size
            w.conn.state w.conn.conn w.sender (omega arith) g))
        (suc (pending c.conn.state.streams)) c (omega arith) good
