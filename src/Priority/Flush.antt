-- ===== src/Priority/Flush.antt =====
-- http/priority.rs: each chunk leaves less to send, and no chunk is left out.
use solicit.Base.{
  ℕ, ◌+◌, ◌-◌, ◌≤◌, ◌<◌, ◌≡◌, refl, sym, ap, arith, min, true, false, inl, inr, ◌⊎◌, List, [], ◌∷◌,
  ◌++◌, Option, none, some, length, take, drop, ◌==◌, length-append, length-take, length-drop,
  le→not_ltb, Bool-cases, Option-cases, Exec, value,
}
use mathlib.Core.Path.{subst}
use solicit.Http.Error.{HttpResult, success}
use solicit.Frame.Builder.{Cursor}
use solicit.Session.Stream.{
  DefaultStream, default_stream, DataResult, ok, unavailable, local_closed, after_close_local,
  next_chunk, read, default_get_data_chunk, is_closed_local,
}
use solicit.Session.Stream.Chunks.{left_over, Chunked, get_data_chunk-Chunked}
use solicit.Priority.{DataChunk, yes_end, no_end, or_else, on_answer, get_next_chunk}
use solicit.Priority.Total.{ids}
use solicit.Priority.Pending.{pending_of, pending}

-- The cursor of the data to send lies within it.
abbrev pub InData : Option Cursor → Type 0
InData none = Unit {0}
InData (some d) = d.position ≤ length d.buffer

next_chunk-InData :
    (o : Option Cursor) (buf : List ℕ) (s : DefaultStream)
    → s.outgoing ≡ o
    → InData o
    → InData (next_chunk o buf s).0.outgoing
unfolding next_chunk read
next_chunk-InData none buf s h within = rw h within
next_chunk-InData (some d) buf s h within =
    let left = drop d.position d.buffer in
    let size : length left ≡ length d.buffer - d.position = length-drop d.position d.buffer in
    elim (Bool-cases (d.position + min (length buf) (length left) == length d.buffer)) [
      | inl e ↦ rw e (omega (arith, size))
      | inr e ↦ rw e (omega (arith, size))
    ]

pub local_closed-after_close_local :
    (s : DefaultStream) → local_closed (after_close_local s.state) ≡ true
local_closed-after_close_local s = ground arith

-- What a stream that is open for writes gives to the prioritizer: nothing, as it has no data, or a
-- chunk, after which less is left.
abbrev pub Gives : ℕ → List ℕ → DefaultStream → Type 0
Gives id buf s =
    let r = default_get_data_chunk buf s in
    ((s.outgoing ≡ none) × (r ≡ (s, buf, ok unavailable)))
    ⊎ ((c : DataChunk) × (on_answer id r.1 r.0 r.2 ≡ value (r.0, some (success (some c))))
        × InData r.0.outgoing
        × (pending_of r.0 < pending_of s))

from_Chunked :
    (id n : ℕ) (s s' : DefaultStream) (buf buf' : List ℕ) (answer : DataResult)
    → local_closed s.state ≡ false
    → 0 < length buf
    → n ≤ length buf
    → length buf' ≡ length buf
    → take n buf' ++ left_over s'.outgoing ≡ left_over s.outgoing
    → Chunked n s s' buf answer
    → (c : DataChunk) × (on_answer id buf' s' answer ≡ value (s', some (success (some c))))
      × (pending_of s' < pending_of s)
unfolding on_answer
from_Chunked id n s s' buf buf' answer writable room fits same whole
      (inl (last_one, empty, state)) =
    let ok_slice = le→not_ltb (length buf') n (omega arith) in
    (
      record { content = take n buf'; stream_id = id; end_stream = yes_end },
      rw (last_one, ok_slice) refl,
      rw (state, local_closed-after_close_local s, writable) (omega arith),
    )
from_Chunked id n s s' buf buf' answer writable room fits same whole
      (inr (more, some_left, full, state)) =
    let ok_slice = le→not_ltb (length buf') n (omega arith) in
    let taken : length (take n buf') ≡ n = omega (arith, length-take n buf') in
    (
      record { content = take n buf'; stream_id = id; end_stream = no_end },
      rw (more, ok_slice) refl,
      rw (state, writable)
          (omega
            (arith, taken, ap length whole, length-append (take n buf') (left_over s'.outgoing))),
    )

pub get_data_chunk-InData :
    (buf : List ℕ) (s : DefaultStream)
    → InData s.outgoing
    → InData (default_get_data_chunk buf s).0.outgoing
unfolding default_get_data_chunk
get_data_chunk-InData buf s within = elim (Bool-cases (local_closed s.state)) [
  | inl e ↦ rw e within
  | inr e ↦ rw e (next_chunk-InData s.outgoing buf s refl within)
]

pub no_data :
    (buf : List ℕ) (s : DefaultStream)
    → local_closed s.state ≡ false
    → s.outgoing ≡ none
    → default_get_data_chunk buf s ≡ (s, buf, ok unavailable)
unfolding default_get_data_chunk next_chunk
no_data buf s writable e = rw (writable, e) refl

get_data_chunk-Gives :
    (id : ℕ) (buf : List ℕ) (s : DefaultStream)
    → local_closed s.state ≡ false
    → InData s.outgoing
    → 0 < length buf
    → Gives id buf s
get_data_chunk-Gives id buf s writable within room = elim (Option-cases s.outgoing) [
  | inl e ↦ inl (e, no_data buf s writable e)
  | inr (d, e) ↦
      let r = default_get_data_chunk buf s in
      let in_data : InData (some d) = subst InData e within in
      let (n, fits, same, whole, chunked) = get_data_chunk-Chunked d buf s e in_data writable in
      let (c, answered, less) =
        from_Chunked id n s r.0 buf r.1 r.2 writable room fits same whole chunked in
      inr (c, answered, get_data_chunk-InData buf s within, less)
]

pub next_shut :
    (id : ℕ) (s : DefaultStream) (rest : List (ℕ × DefaultStream)) (buf : List ℕ)
    → local_closed s.state ≡ true
    → get_next_chunk ((id, s) ∷ rest) buf ≡ or_else id rest (get_next_chunk rest buf) (s, none)
unfolding get_next_chunk is_closed_local
next_shut id s rest buf shut = rw (get_next_chunk, shut) refl

pub next_answer :
    (id : ℕ) (s : DefaultStream) (rest : List (ℕ × DefaultStream)) (buf : List ℕ)
    (a : DefaultStream × Option (HttpResult (Option DataChunk)))
    → local_closed s.state ≡ false
    → (let r = default_get_data_chunk buf s in on_answer id r.1 r.0 r.2 ≡ value a)
    → get_next_chunk ((id, s) ∷ rest) buf
      ≡ or_else id rest (get_next_chunk rest (default_get_data_chunk buf s).1) a
unfolding get_next_chunk is_closed_local
next_answer id s rest buf a writable answered = rw (get_next_chunk, writable, answered) refl

pub next_empty :
    (id : ℕ) (s : DefaultStream) (rest : List (ℕ × DefaultStream)) (buf : List ℕ)
    → local_closed s.state ≡ false
    → default_get_data_chunk buf s ≡ (s, buf, ok unavailable)
    → get_next_chunk ((id, s) ∷ rest) buf ≡ or_else id rest (get_next_chunk rest buf) (s, none)
unfolding get_next_chunk is_closed_local on_answer
next_empty id s rest buf writable e = rw (get_next_chunk, writable, e) refl

-- Nothing more goes out on these streams: each is closed locally or has no data.
abbrev pub Flushed : List (ℕ × DefaultStream) → Type 0
Flushed [] = Unit {0}
Flushed ((id, s) ∷ m) = ((local_closed s.state ≡ true) ⊎ (s.outgoing ≡ none)) × Flushed m

-- What is said of the streams of a session while they are flushed, next to their cursors.
module _ (P : DefaultStream → Type 0) where
  abbrev pub Flushing : List (ℕ × DefaultStream) → Type 0
  Flushing [] = Unit {0}
  Flushing ((id, s) ∷ m) = (InData s.outgoing × P s) × Flushing m

  abbrev pub Outcome :
      List (ℕ × DefaultStream)
      → Exec (List (ℕ × DefaultStream) × HttpResult (Option DataChunk))
      → Type 0
  Outcome m run =
      ((m' : List (ℕ × DefaultStream)) × (c : DataChunk) × (run ≡ value (m', success (some c)))
        × Flushing m'
        × (pending m' < pending m)
        × (ids m' ≡ ids m))
      ⊎ ((run ≡ value (m, success none)) × Flushed m)

module _ (P : DefaultStream → Type 0)
    (keep : (buf : List ℕ) (s : DefaultStream) → P s → P (default_get_data_chunk buf s).0) where
  skip-Outcome :
      (id : ℕ) (s : DefaultStream) (rest : List (ℕ × DefaultStream))
      (further : Exec (List (ℕ × DefaultStream) × HttpResult (Option DataChunk)))
      → (local_closed s.state ≡ true) ⊎ (s.outgoing ≡ none)
      → InData s.outgoing × P s
      → Outcome P rest further
      → Outcome P ((id, s) ∷ rest) (or_else id rest further (s, none))
  unfolding or_else
  skip-Outcome id s rest further done good (inl (m', c, e, f, less, same)) =
      inl ((id, s) ∷ m', c, rw e refl, (good, f), omega (arith, less), ap (◌∷◌ id) same)
  skip-Outcome id s rest further done good (inr (e, over)) = inr (rw e refl, (done, over))

  pub get_next_chunk-Outcome :
      (m : List (ℕ × DefaultStream)) (buf : List ℕ)
      → 0 < length buf
      → Flushing P m
      → Outcome P m (get_next_chunk m buf)
  unfolding get_next_chunk or_else
  get_next_chunk-Outcome [] buf room f = inr (refl, tt)
  get_next_chunk-Outcome ((id, s) ∷ rest) buf room ((within, p), f) =
      elim (Bool-cases (local_closed s.state)) [
        | inl shut ↦ subst (Outcome P ((id, s) ∷ rest)) (sym (next_shut id s rest buf shut)) (
            skip-Outcome id s rest (get_next_chunk rest buf) (inl shut) (within, p)
              (get_next_chunk-Outcome rest buf room f))
        | inr writable ↦ elim (get_data_chunk-Gives id buf s writable within room) [
          | inl (e, empty) ↦
              subst (Outcome P ((id, s) ∷ rest)) (sym (next_empty id s rest buf writable empty)) (
                skip-Outcome id s rest (get_next_chunk rest buf) (inr e) (within, p)
                  (get_next_chunk-Outcome rest buf room f))
          | inr (c, answered, within', less) ↦ inl (
            (id, (default_get_data_chunk buf s).0) ∷ rest,
            c,
            next_answer id s rest buf _ writable answered,
            ((within', keep buf s p), f),
            omega (arith, less),
            refl,
          )
        ]
      ]
