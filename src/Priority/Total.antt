-- ===== src/Priority/Total.antt =====
-- http/priority.rs: the prioritizer over streams that keep what the trait asks of them.
use solicit.Base.{
  ℕ, ◌≤◌, ◌≡◌, refl, ap, inl, inr, List, [], ◌∷◌, map, Option, none, some, length, take, le→not_ltb,
  Exec, value, slice_to, Bool-cases,
}
use solicit.Http.Error.{HttpResult, success}
use solicit.Session.Stream.{
  Stream, DataResult, ok, err, chunk, last, unavailable, closed_for_writes, other, is_closed_local,
}
use solicit.Session.Stream.States.{Within, IsLawful}
use solicit.Priority.{DataChunk, yes_end, no_end, or_else, on_answer, get_next_chunk}

slice_to_total : (buf : List ℕ) (n : ℕ) → n ≤ length buf → slice_to buf n ≡ value (take n buf)
slice_to_total buf n h = rw (le→not_ltb (length buf) n h) refl

abbrev pub ids : {S : Type 0} → List (ℕ × S) → List ℕ
ids m = map (λ e. e.0) m

module _ {S : Type 0} ⦃t : Stream S⦄ where
  on_answer_total :
      (id : ℕ) (buf : List ℕ) (s : S) (answer : DataResult)
      → Within (length buf) answer
      → (a : S × Option (HttpResult (Option DataChunk))) × (on_answer id buf s answer ≡ value a)
  unfolding on_answer
  on_answer_total id buf s (ok (chunk n)) h = (
    (
      s,
      some (success (some (record { content = take n buf; stream_id = id; end_stream = no_end }))),
    ),
    rw (slice_to_total buf n h) refl,
  )
  on_answer_total id buf s (ok (last n)) h = (
    (
      s,
      some (success (some (record { content = take n buf; stream_id = id; end_stream = yes_end }))),
    ),
    rw (slice_to_total buf n h) refl,
  )
  on_answer_total id buf s (ok unavailable) h = (_, refl)
  on_answer_total id buf s (err closed_for_writes) h = (_, refl)
  on_answer_total id buf s (err (other e)) h = (_, refl)

  abbrev Total : List (ℕ × S) → Exec (List (ℕ × S) × HttpResult (Option DataChunk)) → Type 0
  Total m run =
      (m' : List (ℕ × S)) × (r : HttpResult (Option DataChunk)) × (run ≡ value (m', r))
      × (ids m' ≡ ids m)

  or_else-Total :
      (rest : List (ℕ × S)) (id : ℕ) (s : S)
      (further : Exec (List (ℕ × S) × HttpResult (Option DataChunk)))
      (a : S × Option (HttpResult (Option DataChunk)))
      → Total rest further
      → Total ((id, s) ∷ rest) (or_else id rest further a)
  unfolding or_else
  or_else-Total rest id s further (a, some result) h = ((id, a) ∷ rest, result, refl, refl)
  or_else-Total rest id s further (a, none) (m', r, done, same) =
      ((id, a) ∷ m', r, rw done refl, ap (◌∷◌ id) same)

  -- `get_next_chunk` does not panic where the chunks of the streams lie within the buffer, and keeps
  -- the identifiers of the streams and their order.
  pub get_next_chunk_total :
      (lawful : IsLawful t) (m : List (ℕ × S)) (buf : List ℕ)
      → (m' : List (ℕ × S)) × (r : HttpResult (Option DataChunk)) × (get_next_chunk m buf
          ≡ value (m', r))
        × (ids m' ≡ ids m)
  unfolding get_next_chunk
  get_next_chunk_total lawful [] buf = ([], success none, refl, refl)
  get_next_chunk_total lawful ((id, s) ∷ rest) buf = elim (Bool-cases (is_closed_local s)) [
    | inl closed ↦
        rw (get_next_chunk, closed)
          (or_else-Total rest id s _ (s, none) (get_next_chunk_total lawful rest buf))
    | inr writable ↦
        let given = t.get_data_chunk buf s in
        let (a, answered) =
          on_answer_total id given.1 given.0 given.2 (lawful.chunk_within buf s) in
        rw (get_next_chunk, writable, answered)
          (or_else-Total rest id s _ a (get_next_chunk_total lawful rest given.1))
  ]
