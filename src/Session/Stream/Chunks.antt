-- ===== src/Session/Stream/Chunks.antt =====
-- http/session.rs: the chunks of an in-memory stream are its data, in order and with none left out.
use solicit.Base.{
  ℕ, zero, suc, ◌+◌, ◌-◌, ◌≤◌, ◌<◌, ◌≡◌, ◌≢◌, ◌∙◌, refl, sym, ap, arith, min, false, inl, inr, ◌⊎◌,
  List, [], ◌∷◌, ◌++◌, Option, none, some, length, take, drop, ◌==◌, length-take, length-drop,
  length-append, drop_all, take-append, take-append-drop, Bool-cases, ==_iff,
}
use solicit.Frame.Builder.{Cursor}
use solicit.Session.Stream.{
  DataResult, ok, chunk, last, local_closed, after_close_local, DefaultStream, read, next_chunk,
  default_get_data_chunk, default_stream,
}
use native.Mathlib.Nat.{zero-add, suc-add}
use solicit.Session.Stream.States.{Within, IsLawful}

-- What a cursor has not yet given out.
abbrev pub left_over : Option Cursor → List ℕ
left_over none = []
left_over (some d) = drop d.position d.buffer

drop_nil : (n : ℕ) → drop {A = ℕ} n [] ≡ []
drop_nil zero = refl
drop_nil (suc n) = refl

drop-add : (m n : ℕ) (xs : List ℕ) → drop (m + n) xs ≡ drop n (drop m xs)
drop-add zero n xs = rw zero-add
drop-add (suc m) n [] = drop_nil (suc m + n) ∙ sym (drop_nil n)
drop-add (suc m) n (x ∷ xs) = rw suc-add (drop-add m n xs)

-- What a read gives out, and what it leaves.
take-read :
    (xs buf : List ℕ)
    → take
        (min (length buf) (length xs))
        (take (min (length buf) (length xs)) xs ++ drop (min (length buf) (length xs)) buf)
      ≡ take (min (length buf) (length xs)) xs
take-read xs buf = take-append _ _ _ (omega (arith, length-take (min (length buf) (length xs)) xs))

length-read :
    (xs buf : List ℕ)
    → length (take (min (length buf) (length xs)) xs ++ drop (min (length buf) (length xs)) buf)
      ≡ length buf
length-read xs buf =
    let n = min (length buf) (length xs) in
    omega (arith, length-append (take n xs) (drop n buf), length-take n xs, length-drop n buf)

-- The result of a read of `n` octets: the last ones, after which the local end is closed, or a full
-- buffer, after which some are left.
abbrev pub Chunked : ℕ → DefaultStream → DefaultStream → List ℕ → DataResult → Type 0
Chunked n s s' buf answer =
    ((answer ≡ ok (last n)) × (left_over s'.outgoing ≡ []) × (s'.state ≡ after_close_local s.state))
    ⊎ ((answer ≡ ok (chunk n))
        × (left_over s'.outgoing ≢ [])
        × (n ≡ length buf)
        × (s'.state ≡ s.state))

-- A read takes as many octets as fit from the front of what is left, and leaves the rest.
pub next_chunk-Chunked :
    (d : Cursor) (buf : List ℕ) (s : DefaultStream)
    → s.outgoing ≡ some d
    → d.position ≤ length d.buffer
    → let r = next_chunk (some d) buf s in
      (n : ℕ) × (n ≤ length buf)
      × (length r.1 ≡ length buf)
      × (take n r.1 ++ left_over r.0.outgoing ≡ left_over s.outgoing)
      × Chunked n s r.0 buf r.2
unfolding next_chunk read
next_chunk-Chunked d buf s h fits =
    let left = drop d.position d.buffer in
    let n = min (length buf) (length left) in
    let ends : drop (d.position + n) d.buffer ≡ drop n left = drop-add d.position n d.buffer in
    let whole : take n left ++ drop n left ≡ left = take-append-drop n left in
    let given : take n (take n left ++ drop n buf) ++ drop (d.position + n) d.buffer
        ≡ left_over s.outgoing =
      rw (take-read left buf, ends, whole, h) refl in
    let size : length left ≡ length d.buffer - d.position = length-drop d.position d.buffer in
    elim (Bool-cases (d.position + n == length d.buffer)) [
      | inl e ↦
          let all : d.position + n ≡ length d.buffer = (==_iff _ _).0 e in
          rw e (
            n,
            omega arith,
            length-read left buf,
            given,
            inl (refl, drop_all (d.position + n) d.buffer (omega arith), refl),
          )
      | inr e ↦
          let some_left : d.position + n < length d.buffer = ground arith in
          rw e (
            n,
            omega arith,
            length-read left buf,
            given,
            inr (refl, not_empty some_left, omega arith, refl),
          )
    ]
  where
    not_empty : {k : ℕ} → k < length d.buffer → drop k d.buffer ≢ []
    not_empty {k} lt e = omega (arith, length-drop k d.buffer, ap length e)

-- `get_data_chunk` of an in-memory stream that is open for writes and has data, its cursor within it,
-- places the next octets at the front of the buffer: they and what is left afterwards are what was
-- left before, and the buffer keeps its length. Either nothing is left, the answer says that these
-- octets are the last, and the local end is closed; or some are left, the buffer is full, and the
-- state is as before.
pub get_data_chunk-Chunked :
    (d : Cursor) (buf : List ℕ) (s : DefaultStream)
    → s.outgoing ≡ some d
    → d.position ≤ length d.buffer
    → local_closed s.state ≡ false
    → let r = default_get_data_chunk buf s in
      (n : ℕ) × (n ≤ length buf)
      × (length r.1 ≡ length buf)
      × (take n r.1 ++ left_over r.0.outgoing ≡ left_over s.outgoing)
      × Chunked n s r.0 buf r.2
unfolding default_get_data_chunk
get_data_chunk-Chunked d buf s h fits writable =
    let opened : default_get_data_chunk buf s ≡ next_chunk (some d) buf s = rw (writable, h) refl in
    rw opened (next_chunk-Chunked d buf s h fits)

next_chunk-Within :
    (o : Option Cursor) (buf : List ℕ) (s : DefaultStream)
    → Within (length (next_chunk o buf s).1) (next_chunk o buf s).2
unfolding next_chunk read
next_chunk-Within none buf s = tt
next_chunk-Within (some d) buf s =
    let left = drop d.position d.buffer in
    let n = min (length buf) (length left) in
    let fits : n ≤ length (take n left ++ drop n buf) = omega (arith, length-read left buf) in
    elim (Bool-cases (d.position + n == length d.buffer)) [ inl e ↦ rw e fits | inr e ↦ rw e fits ]

-- The in-memory stream sets the state that it is told to, and the octets of a chunk that it reports
-- lie within the buffer.
pub default_stream-IsLawful : IsLawful default_stream
unfolding default_get_data_chunk
default_stream-IsLawful = record {
  state-set_state = λ st s. refl;
  chunk_within = λ buf s. elim (Bool-cases (local_closed s.state)) [
    | inl e ↦ rw e tt
    | inr e ↦ rw e (next_chunk-Within s.outgoing buf s)
  ];
}
