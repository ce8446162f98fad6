-- ===== src/Priority.antt =====
-- http/priority.rs: the prioritizer that takes the next chunk of the first stream that has one.
pub mod Total
pub mod Labels
pub mod Pending
pub mod Flush
pub mod Chunks
pub mod Taken
use solicit.Base.{
  ℕ, Bool, true, false, List, [], ◌∷◌, Option, none, some, if◌then◌else◌, Exec, value, ◌>>=◌,
  slice_to,
}
use solicit.Http.Error.{HttpError, HttpResult, success, failure}
use solicit.Session.Stream.{
  Stream, StreamDataChunk, StreamDataError, DataResult, is_closed_local, close_local,
}

pub data EndStream : Type 0 where
  yes_end no_end : EndStream

-- The field `data` of the source is `content` here.
pub record DataChunk : Type 0 where
  pub content : List ℕ
  pub stream_id : ℕ
  pub end_stream : EndStream

module _ {S : Type 0} ⦃t : Stream S⦄ where
  -- What the loop does with a stream's answer: `none` goes on to the next stream, after the change
  -- that is made to this one.
  unfoldable pub on_answer :
      ℕ → List ℕ → S → DataResult → Exec (S × Option (HttpResult (Option DataChunk)))
  on_answer id buf s (DataResult.ok (StreamDataChunk.last total)) = do
    bytes ← slice_to buf total
    value (
      s,
      some (success (some (record { content = bytes; stream_id = id; end_stream = yes_end }))),
    )
  on_answer id buf s (DataResult.ok (StreamDataChunk.chunk total)) = do
    bytes ← slice_to buf total
    value
        (s, some (success (some (record { content = bytes; stream_id = id; end_stream = no_end }))))
  on_answer id buf s (DataResult.ok StreamDataChunk.unavailable) = value (s, none)
  on_answer id buf s (DataResult.err StreamDataError.closed_for_writes) =
      value (close_local s, none)
  on_answer id buf s (DataResult.err (StreamDataError.other e)) =
      value (s, some (failure (HttpError.other e)))

  -- The result of the loop from this stream on: that of the answer, or else that of the streams
  -- after it, `further`.
  unfoldable pub or_else :
      ℕ
      → List (ℕ × S)
      → Exec (List (ℕ × S) × HttpResult (Option DataChunk))
      → S × Option (HttpResult (Option DataChunk))
      → Exec (List (ℕ × S) × HttpResult (Option DataChunk))
  or_else id rest further (s, some result) = value ((id, s) ∷ rest, result)
  or_else id rest further (s, none) = further >>= λ r. value ((id, s) ∷ r.0, r.1)

  -- `SimplePrioritizer::get_next_chunk`: the streams after the call, and its result.
  unfoldable pub get_next_chunk :
      List (ℕ × S) → List ℕ → Exec (List (ℕ × S) × HttpResult (Option DataChunk))
  unfolding on_answer or_else
  get_next_chunk [] buf = value ([], success none)
  get_next_chunk ((id, s) ∷ rest) buf = elim (is_closed_local s) [
    | true ↦ or_else id rest (get_next_chunk rest buf) (s, none)
    | false ↦
        let (s', buf', answer) = t.get_data_chunk buf s in
        on_answer id buf' s' answer >>= λ a. or_else id rest (get_next_chunk rest buf') a
  ]
