-- ===== src/Priority/Chunks.antt =====
-- http/priority.rs: the chunk that the prioritizer gives is the next data of one stream.
use solicit.Base.{
  ℕ, ◌≤◌, ◌≡◌, ◌≢◌, refl, sym, arith, true, false, inl, inr, ◌⊎◌, List, [], ◌∷◌, ◌++◌, Option, none,
  some, length, take, drop, min, ◌+◌, ◌==◌, length-take, le→not_ltb, Bool-cases, Option-cases, Exec,
  value,
}
use mathlib.Core.Path.{subst}
use solicit.Http.Error.{HttpResult, success}
use solicit.Frame.Builder.{Cursor}
use solicit.Session.Stream.{
  DefaultStream, default_stream, DataResult, local_closed, next_chunk, read, default_get_data_chunk,
}
use solicit.Session.Stream.Chunks.{left_over, Chunked, get_data_chunk-Chunked}
use solicit.Priority.{DataChunk, yes_end, no_end, or_else, on_answer, get_next_chunk}
use solicit.Priority.Flush.{
  InData, Flushed, next_shut, next_answer, next_empty, get_data_chunk-InData, no_data,
  local_closed-after_close_local,
}

-- Every cursor lies within its data.
abbrev pub InBounds : List (ℕ × DefaultStream) → Type 0
InBounds [] = Unit {0}
InBounds ((id, s) ∷ m) = InData s.outgoing × InBounds m

-- The chunk is the next data of the stream, and the last of it exactly if it ends the stream, which
-- is closed locally then, and else stays open.
abbrev pub Next : ℕ → DataChunk → DefaultStream → DefaultStream → Type 0
Next size c s s' =
    (length c.content ≤ size)
    × (local_closed s.state ≡ false)
    × (c.content ++ left_over s'.outgoing ≡ left_over s.outgoing)
    × InData s'.outgoing
    × (s'.outgoing ≢ none)
    × (((c.end_stream ≡ yes_end) × (left_over s'.outgoing ≡ []) × (local_closed s'.state ≡ true))
        ⊎ ((c.end_stream ≡ no_end) × (local_closed s'.state ≡ false)))

-- The chunk is taken from one of the streams, and the others stay.
pub data Taken (size : ℕ) (c : DataChunk)
    : List (ℕ × DefaultStream) → List (ℕ × DefaultStream) → Type 0 where
  here :
      (s s' : DefaultStream) (m : List (ℕ × DefaultStream))
      → Next size c s s'
      → Taken size c ((c.stream_id, s) ∷ m) ((c.stream_id, s') ∷ m)
  there :
      (i : ℕ) (s : DefaultStream) (m m' : List (ℕ × DefaultStream))
      → Taken size c m m'
      → Taken size c ((i, s) ∷ m) ((i, s) ∷ m')

next_chunk-has_data :
    (d : Cursor) (buf : List ℕ) (s : DefaultStream) → (next_chunk (some d) buf s).0.outgoing ≢ none
unfolding next_chunk read
next_chunk-has_data d buf s =
    let left = drop d.position d.buffer in
    elim (Bool-cases (d.position + min (length buf) (length left) == length d.buffer)) [
      | inl e ↦ rw e (λ missing. absurd cc)
      | inr e ↦ rw e (λ missing. absurd cc)
    ]

get_data_chunk-has_data :
    (d : Cursor) (buf : List ℕ) (s : DefaultStream)
    → s.outgoing ≡ some d
    → local_closed s.state ≡ false
    → (default_get_data_chunk buf s).0.outgoing ≢ none
unfolding default_get_data_chunk
get_data_chunk-has_data d buf s e writable = rw (writable, e) (next_chunk-has_data d buf s)

answer-Next :
    (id n : ℕ) (s s' : DefaultStream) (buf buf' : List ℕ) (answer : DataResult)
    → local_closed s.state ≡ false
    → n ≤ length buf
    → length buf' ≡ length buf
    → take n buf' ++ left_over s'.outgoing ≡ left_over s.outgoing
    → InData s'.outgoing
    → s'.outgoing ≢ none
    → Chunked n s s' buf answer
    → (c : DataChunk) × (c.stream_id ≡ id)
      × (on_answer id buf' s' answer ≡ value (s', some (success (some c))))
      × Next (length buf) c s s'
unfolding on_answer
answer-Next id n s s' buf buf' answer writable fits same whole within has
      (inl (last_one, empty, state)) =
    let ok_slice = le→not_ltb (length buf') n (omega arith) in
    (
      record { content = take n buf'; stream_id = id; end_stream = yes_end },
      refl,
      rw (last_one, ok_slice) refl,
      (
        omega (arith, length-take n buf'),
        writable,
        whole,
        within,
        has,
        inl (refl, empty, rw state (local_closed-after_close_local s)),
      ),
    )
answer-Next id n s s' buf buf' answer writable fits same whole within has
      (inr (more, some_left, full, state)) =
    let ok_slice = le→not_ltb (length buf') n (omega arith) in
    (
      record { content = take n buf'; stream_id = id; end_stream = no_end },
      refl,
      rw (more, ok_slice) refl,
      (
        omega (arith, length-take n buf'),
        writable,
        whole,
        within,
        has,
        inr (refl, rw state writable),
      ),
    )

get_data_chunk-Next :
    (id : ℕ) (d : Cursor) (buf : List ℕ) (s : DefaultStream)
    → s.outgoing ≡ some d
    → local_closed s.state ≡ false
    → InData s.outgoing
    → let r = default_get_data_chunk buf s in
      (c : DataChunk) × (c.stream_id ≡ id)
      × (on_answer id r.1 r.0 r.2 ≡ value (r.0, some (success (some c))))
      × Next (length buf) c s r.0
get_data_chunk-Next id d buf s e writable within =
    let r = default_get_data_chunk buf s in
    let in_data : InData (some d) = subst InData e within in
    let (n, fits, same, whole, chunked) = get_data_chunk-Chunked d buf s e in_data writable in
    answer-Next id n s r.0 buf r.1 r.2 writable fits same whole (get_data_chunk-InData buf s within)
      (get_data_chunk-has_data d buf s e writable) chunked

-- A chunk of a stream, or none, where no stream has data to send.
abbrev pub Chosen :
    ℕ
    → List (ℕ × DefaultStream)
    → Exec (List (ℕ × DefaultStream) × HttpResult (Option DataChunk))
    → Type 0
Chosen size m run =
    ((m' : List (ℕ × DefaultStream)) × (c : DataChunk) × (run ≡ value (m', success (some c)))
      × Taken size c m m')
    ⊎ ((run ≡ value (m, success none)) × Flushed m)

skip-Chosen :
    (size id : ℕ) (s : DefaultStream) (rest : List (ℕ × DefaultStream))
    (further : Exec (List (ℕ × DefaultStream) × HttpResult (Option DataChunk)))
    → (local_closed s.state ≡ true) ⊎ (s.outgoing ≡ none)
    → Chosen size rest further
    → Chosen size ((id, s) ∷ rest) (or_else id rest further (s, none))
unfolding or_else
skip-Chosen size id s rest further done (inl (m', c, e, taken)) =
    inl ((id, s) ∷ m', c, rw e refl, there id s rest m' taken)
skip-Chosen size id s rest further done (inr (e, over)) = inr (rw e refl, (done, over))

here_at :
    (size id : ℕ) (c : DataChunk) (s s' : DefaultStream) (m : List (ℕ × DefaultStream))
    → c.stream_id ≡ id
    → Next size c s s'
    → Taken size c ((id, s) ∷ m) ((id, s') ∷ m)
here_at size id c s s' m same next =
    subst (λ i. Taken size c ((i, s) ∷ m) ((i, s') ∷ m)) same (here s s' m next)

pub get_next_chunk-Chosen :
    (m : List (ℕ × DefaultStream)) (buf : List ℕ)
    → InBounds m
    → Chosen (length buf) m (get_next_chunk m buf)
unfolding get_next_chunk or_else
get_next_chunk-Chosen [] buf f = inr (refl, tt)
get_next_chunk-Chosen ((id, s) ∷ rest) buf (within, f) =
    let skip = skip-Chosen (length buf) id s rest (get_next_chunk rest buf) in
    let further = get_next_chunk-Chosen rest buf f in
    elim (Bool-cases (local_closed s.state)) [
      | inl shut ↦
          subst (Chosen (length buf) ((id, s) ∷ rest)) (sym (next_shut id s rest buf shut))
            (skip (inl shut) further)
      | inr writable ↦ elim (Option-cases s.outgoing) [
        | inl e ↦
            let empty = no_data buf s writable e in
            subst (Chosen (length buf) ((id, s) ∷ rest))
              (sym (next_empty id s rest buf writable empty)) (skip (inr e) further)
        | inr (d, e) ↦
            let (c, same, answered, next) = get_data_chunk-Next id d buf s e writable within in
            inl (
              (id, (default_get_data_chunk buf s).0) ∷ rest,
              c,
              next_answer id s rest buf _ writable answered,
              here_at (length buf) id c s _ rest same next,
            )
      ]
    ]
