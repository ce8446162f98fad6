-- ===== src/Priority/Labels.antt =====
-- http/priority.rs: the prioritizer over in-memory streams keeps their identifiers.
use solicit.Base.{
  ℕ, ◌≡◌, refl, ◌∙◌, inl, inr, length, ◌+◌, ◌==◌, List, [], ◌∷◌, Option, none, some, Exec, value,
  panic, min, drop, Bool-cases, ltb, OnValue, bind-OnValue,
}
use solicit.Http.Error.{HttpResult}
use solicit.Frame.Builder.{Cursor}
use solicit.Session.Stream.{
  DefaultStream, default_stream, next_chunk, read, default_get_data_chunk, local_closed, DataResult,
  ok, err, chunk, last, unavailable, closed_for_writes, other, is_closed_local, close_local,
}
use solicit.Session.State.Labels.{labels}
use solicit.Priority.{DataChunk, or_else, on_answer, get_next_chunk}

next_chunk-stream_id :
    (o : Option Cursor) (buf : List ℕ) (s : DefaultStream)
    → (next_chunk o buf s).0.stream_id ≡ s.stream_id
unfolding next_chunk read
next_chunk-stream_id none buf s = refl
next_chunk-stream_id (some d) buf s =
    let left = drop d.position d.buffer in
    elim (Bool-cases (d.position + min (length buf) (length left) == length d.buffer)) [
      | inl e ↦ rw e refl
      | inr e ↦ rw e refl
    ]

get_data_chunk-stream_id :
    (buf : List ℕ) (s : DefaultStream) → (default_get_data_chunk buf s).0.stream_id ≡ s.stream_id
unfolding default_get_data_chunk
get_data_chunk-stream_id buf s = elim (Bool-cases (local_closed s.state)) [
  | inl e ↦ rw e refl
  | inr e ↦ rw e (next_chunk-stream_id s.outgoing buf s)
]

on_answer-stream_id :
    (id : ℕ) (buf : List ℕ) (s : DefaultStream) (answer : DataResult)
    → OnValue (λ a. a.0.stream_id ≡ s.stream_id) (on_answer id buf s answer)
unfolding on_answer close_local
on_answer-stream_id id buf s (ok (chunk n)) = elim (Bool-cases (ltb (length buf) n)) [
  | inl e ↦ rw e tt
  | inr e ↦ rw e refl
]
on_answer-stream_id id buf s (ok (last n)) = elim (Bool-cases (ltb (length buf) n)) [
  | inl e ↦ rw e tt
  | inr e ↦ rw e refl
]
on_answer-stream_id id buf s (ok unavailable) = refl
on_answer-stream_id id buf s (err closed_for_writes) = refl
on_answer-stream_id id buf s (err (other e)) = refl

abbrev pub KeepsLabels :
    List (ℕ × DefaultStream)
    → Exec (List (ℕ × DefaultStream) × HttpResult (Option DataChunk))
    → Type 0
KeepsLabels m run = OnValue (λ r. labels r.0 ≡ labels m) run

or_else-KeepsLabels :
    (id : ℕ) (s : DefaultStream) (rest : List (ℕ × DefaultStream))
    (further : Exec (List (ℕ × DefaultStream) × HttpResult (Option DataChunk)))
    (a : DefaultStream × Option (HttpResult (Option DataChunk)))
    → a.0.stream_id ≡ s.stream_id
    → KeepsLabels rest further
    → KeepsLabels ((id, s) ∷ rest) (or_else id rest further a)
unfolding or_else
or_else-KeepsLabels id s rest further (s', some result) same h = rw same refl
or_else-KeepsLabels id s rest (value r) (s', none) same h = rw (same, h) refl
or_else-KeepsLabels id s rest panic (s', none) same h = tt

pub get_next_chunk-KeepsLabels :
    (m : List (ℕ × DefaultStream)) (buf : List ℕ) → KeepsLabels m (get_next_chunk m buf)
unfolding get_next_chunk
get_next_chunk-KeepsLabels [] buf = refl
get_next_chunk-KeepsLabels ((id, s) ∷ rest) buf = elim (Bool-cases (is_closed_local s)) [
  | inl closed ↦
      rw (get_next_chunk, closed)
        (or_else-KeepsLabels id s rest _ (s, none) refl (get_next_chunk-KeepsLabels rest buf))
  | inr writable ↦
      let given = default_get_data_chunk buf s in
      let kept = get_data_chunk-stream_id buf s in
      rw (get_next_chunk, writable)
        (bind-OnValue (λ a. a.0.stream_id ≡ given.0.stream_id) _
          (on_answer id given.1 given.0 given.2) _ (on_answer-stream_id id given.1 given.0 given.2)
          (λ a same.
            or_else-KeepsLabels id s rest _ a (same ∙ kept)
              (get_next_chunk-KeepsLabels rest given.1)))
]
