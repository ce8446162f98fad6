-- ===== src/SimpleServer/Answers.antt =====
-- server/mod.rs: what the end of `handle_next` sends, and which streams it removes.
use solicit.Base.{ℕ, ◌≢◌, List, inl, inr}
use solicit.Http.Run.{fault, ◌>>◌}
use solicit.Connection.Defs.{Hpack}
use solicit.Connection.Repeat.{Ends}
use solicit.Session.State.Maps.{Distinct}
use solicit.Priority.Flush.{Flushing}
use solicit.Transport.{TransportStream}
use solicit.SimpleServer.{SimpleServer, flush_streams, reap_streams}
use solicit.SimpleServer.Flush
use solicit.SimpleServer.Flush.{Unanswered}
use solicit.SimpleServer.Flush.Streams.{IsAnswered, get_data_chunk-IsAnswered}

module _ (hpack : Hpack) {T H : Type 0} ⦃ts : TransportStream T⦄
    (writes : (bytes : List ℕ) (t : T) → ts.write_all bytes t ≢ fault) where
  abbrev pub Good : SimpleServer hpack T H → Type 0
  Good s = Flushing IsAnswered s.conn.state.streams × Distinct s.conn.state.streams

  -- If the stream of octets never panics on a write, the identifiers of the streams are distinct, and
  -- every stream whose remote end is closed has its response staged, with the cursors of all staged
  -- data within it, then `flush_streams` followed by `reap_streams` ends: with an error of the
  -- stream or of a window, or with no stream left whose remote end is closed.
  pub reap_streams-flush_streams :
      (s : SimpleServer hpack T H) → Good s → Ends Unanswered ((flush_streams >> reap_streams) s)
  reap_streams-flush_streams s good =
      elim (Flush.reap_streams-flush_streams-Ends hpack writes IsAnswered get_data_chunk-IsAnswered
        (λ x h. h) s good) [ inl (s', e, rest) ↦ inl (s', e, rest.0) | inr failed ↦ inr failed ]
