-- ===== src/Transport/ReadExact.antt =====
-- http/transport.rs: `read_exact` over a stream that gives its octets in order.
use solicit.Base.{
  ℕ, zero, suc, ◌+◌, ◌-◌, ◌≤◌, ◌<◌, ◌≡◌, ◌≢◌, refl, sym, ap, ◌∙◌, arith, inl, inr, ◌⊎◌, false, List,
  [], ◌∷◌, ◌++◌, length, ltb, le→not_ltb, lt→ltb, ltb→lt, ◌==◌, Bool-cases, length-append,
  append_assoc, append-nil,
}
use mathlib.Core.Path.{subst}
use solicit.Http.Run.{Run, ok, err, fault, M}
use solicit.Http.Error.{HttpError}
use solicit.Connection.Keeps.{Run-cases}
use solicit.Transport.{TransportStream, not_enough_bytes, after_read, read_loop, read_exact}

-- What is assumed of a stream, for the octets that it has yet to give and those that it was given.
pub record IsStream {T : Type 0} (ts : TransportStream T) : Type 0 where
  pub unread : T → List ℕ
  pub written : T → List ℕ
  pub read_front :
      (n : ℕ) (t t' : T) (bytes : List ℕ)
      → ts.read n t ≡ ok bytes t'
      → (length bytes ≤ n) × (unread t ≡ bytes ++ unread t')
  pub read_some :
      (n : ℕ) (t : T)
      → 0 < n
      → unread t ≢ []
      → (bytes : List ℕ) × (t' : T) × (ts.read n t ≡ ok bytes t') × (0 < length bytes)
  pub write_all_end :
      (bytes : List ℕ) (t : T)
      → (t' : T) × (ts.write_all bytes t ≡ ok tt t') × (written t' ≡ written t ++ bytes)

-- The shorter of two fronts of a list is a front of the longer one.
split_front :
    {A : Type 0} (a b c d : List A)
    → a ++ b ≡ c ++ d
    → length c ≤ length a
    → (e : List A) × (a ≡ c ++ e) × (d ≡ e ++ b)
split_front a b [] d same h = (a, refl, sym same)
split_front [] b (y ∷ c) d same h = absurd (omega arith)
split_front (x ∷ a) b (y ∷ c) d same h =
    let tails : a ++ b ≡ c ++ d = cc in
    let (e, front, back) = split_front a b c d tails (omega arith) in (e, cc, back)

module _ {T : Type 0} ⦃ts : TransportStream T⦄ (stream : IsStream ts) where
  not_zero : (n : ℕ) → 0 < n → (n == 0) ≡ false
  not_zero n h = ground arith

  -- The loop with enough fuel and enough octets.
  read_loop_complete :
      (fuel size : ℕ) (filled front rest : List ℕ) (t : T)
      → size ≤ length filled + fuel
      → length filled + length front ≡ size
      → stream.unread t ≡ front ++ rest
      → (t' : T) × (read_loop fuel size filled t ≡ ok (filled ++ front) t')
        × (stream.unread t' ≡ rest)
  unfolding read_loop
  read_loop_complete zero size filled [] rest t enough total octets =
      rw (le→not_ltb (length filled) size (omega arith), append-nil) (t, refl, octets)
  read_loop_complete zero size filled (x ∷ front) rest t enough total octets = absurd (omega arith)
  read_loop_complete (suc fuel) size filled [] rest t enough total octets =
      rw (read_loop, le→not_ltb (length filled) size (omega arith), append-nil) (t, refl, octets)
  read_loop_complete (suc fuel) size filled (x ∷ front) rest t enough total octets =
      let (bytes, t', got, positive) =
        stream.read_some (size - length filled) t (omega arith) (λ e. cc) in
      let (fits, unread) = stream.read_front (size - length filled) t t' bytes got in
      let (e, front_is, after) =
        split_front (x ∷ front) rest bytes (stream.unread t')
          (sym {a = stream.unread t} octets ∙ unread) (omega arith) in
      rw
        (
          read_loop,
          lt→ltb (length filled) size (omega arith),
          got,
          after_read,
          not_zero (length bytes) positive,
          front_is,
          sym (append_assoc filled bytes e),
        )
        (read_loop_complete fuel size (filled ++ bytes) e rest t'
          (omega (arith, length-append filled bytes))
          (omega (arith, length-append filled bytes, ap length front_is, length-append bytes e))
          after)

  -- On a stream that gives its octets in order, `read_exact` of as many octets as the stream has in
  -- front of others succeeds with these octets and leaves the others.
  pub read_exact_complete :
      (front rest : List ℕ) (t : T)
      → stream.unread t ≡ front ++ rest
      → (t' : T) × (read_exact (length front) t ≡ ok front t') × (stream.unread t' ≡ rest)
  unfolding read_exact
  read_exact_complete front rest t octets =
      read_loop_complete (length front) (length front) [] front rest t (omega arith) (omega arith)
        octets

  -- What the loop has read when it succeeds.
  Filled : ℕ → List ℕ → T → Run T (List ℕ) → Type 0
  Filled size filled t (ok out t') =
      (length out ≡ size)
      × ((tail : List ℕ) × (out ≡ filled ++ tail) × (stream.unread t ≡ tail ++ stream.unread t'))
  Filled size filled t (err e t') = Unit {0}
  Filled size filled t fault = Unit {0}

  more :
      (size : ℕ) (filled bytes : List ℕ) (t t' : T) (r : Run T (List ℕ))
      → stream.unread t ≡ bytes ++ stream.unread t'
      → Filled size (filled ++ bytes) t' r
      → Filled size filled t r
  unfolding Filled
  more size filled bytes t t' (ok out u) octets (len, (tail, whole, left)) = (
    len,
    (
      bytes ++ tail,
      whole ∙ append_assoc filled bytes tail,
      octets ∙ ap (◌++◌ bytes) left ∙ sym (append_assoc bytes tail (stream.unread u)),
    ),
  )
  more size filled bytes t t' (err e u) octets h = tt
  more size filled bytes t t' fault octets h = h

  after_read-Filled :
      (size : ℕ) (filled : List ℕ) (t : T) (continue : List ℕ → M T (List ℕ))
      → ((bytes : List ℕ) (t' : T)
          → 0 < length bytes
          → length bytes ≤ size - length filled
          → Filled size (filled ++ bytes) t' (continue bytes t'))
      → (r : Run T (List ℕ)) → ts.read (size - length filled) t ≡ r
      → Filled size filled t (after_read continue r)
  unfolding Filled after_read
  after_read-Filled size filled t continue next (err e t') got = tt
  after_read-Filled size filled t continue next fault got = tt
  after_read-Filled size filled t continue next (ok bytes t') got =
      let (fits, octets) = stream.read_front (size - length filled) t t' bytes got in
      elim (Bool-cases (length bytes == 0)) [
        | inl empty ↦ rw (Filled, empty) tt
        | inr some ↦
            rw (Filled, some)
              (more size filled bytes t t' _ octets (next bytes t' (ground arith) fits))
      ]

  read_loop-Filled :
      (fuel size : ℕ) (filled : List ℕ) (t : T)
      → size ≤ length filled + fuel
      → length filled ≤ size
      → Filled size filled t (read_loop fuel size filled t)
  unfolding Filled read_loop
  read_loop-Filled zero size filled t enough bound =
      rw (le→not_ltb (length filled) size (omega arith))
        (omega arith, ([], sym (append-nil filled), refl))
  read_loop-Filled (suc fuel) size filled t enough bound =
      elim (Bool-cases (ltb (length filled) size)) [
        | inr full ↦ rw (read_loop, full) (ground arith, ([], sym (append-nil filled), refl))
        | inl room ↦
            rw (read_loop, room)
              (after_read-Filled size filled t _
                (λ bytes t' positive fits.
                  let whole = length-append filled bytes in
                  read_loop-Filled fuel size (filled ++ bytes) t' (omega (arith, whole))
                    (omega (arith, whole, ltb→lt _ _ room)))
                (ts.read (size - length filled) t) refl)
      ]

  -- If `read_exact` succeeds, it gave the next octets of the stream, as many as asked for.
  pub read_exact_sound :
      (size : ℕ) (t t' : T) (bytes : List ℕ)
      → read_exact size t ≡ ok bytes t'
      → (length bytes ≡ size) × (stream.unread t ≡ bytes ++ stream.unread t')
  unfolding read_exact Filled
  read_exact_sound size t t' bytes h =
      let (len, (tail, whole, left)) =
        subst (Filled size [] t) h (read_loop-Filled size size [] t (omega arith) (omega arith)) in
      (len, rw whole left)

module _ {T : Type 0} ⦃ts : TransportStream T⦄ where
  -- The number of octets asked for, or an error.
  abbrev pub EndsWith : ℕ → Run T (List ℕ) → Type 0
  EndsWith size r =
      ((bytes : List ℕ) × (t : T) × (r ≡ ok bytes t) × (length bytes ≡ size))
      ⊎ ((e : HttpError) × (t : T) × (r ≡ err e t))

  module _ (reads : (n : ℕ) (t : T) → ts.read n t ≢ fault)
      (bounded : (n : ℕ) (t t' : T) (bytes : List ℕ)
        → ts.read n t ≡ ok bytes t'
        → length bytes ≤ n) where
    read_loop-EndsWith :
        (fuel size : ℕ) (filled : List ℕ) (t : T)
        → size ≤ length filled + fuel
        → length filled ≤ size
        → EndsWith size (read_loop fuel size filled t)
    unfolding read_loop after_read
    read_loop-EndsWith zero size filled t enough bound =
        inl (filled, t, rw (le→not_ltb (length filled) size (omega arith)) refl, omega arith)
    read_loop-EndsWith (suc fuel) size filled t enough bound =
        elim (Bool-cases (ltb (length filled) size)) [
          | inr full ↦ inl (filled, t, rw (read_loop, full) refl, ground arith)
          | inl room ↦ elim (Run-cases (ts.read (size - length filled) t)) [
            | inr (inl (e, t', got)) ↦ inr (e, t', rw (read_loop, room, got) refl)
            | inr (inr got) ↦ absurd (reads (size - length filled) t got)
            | inl (bytes, t', got) ↦ elim (Bool-cases (length bytes == 0)) [
              | inl none_left ↦
                  inr (not_enough_bytes, t', rw (read_loop, room, got, after_read, none_left) refl)
              | inr more_read ↦
                  let fits = bounded (size - length filled) t t' bytes got in
                  let whole = length-append filled bytes in
                  let positive : 0 < length bytes = ground arith in
                  let step : read_loop (suc fuel) size filled t
                      ≡ read_loop fuel size (filled ++ bytes) t' =
                    rw (read_loop, room, got, after_read, more_read) refl in
                  subst (EndsWith size) (sym step) (
                    read_loop-EndsWith fuel size (filled ++ bytes) t' (omega (arith, whole))
                      (omega (arith, whole, ltb→lt _ _ room)))
            ]
          ]
        ]

    -- If no read of the stream panics or gives more octets than asked for, `read_exact` ends: with
    -- as many octets as asked for, or with an error.
    pub read_exact_terminates : (size : ℕ) (t : T) → EndsWith size (read_exact size t)
    unfolding read_exact
    read_exact_terminates size t = read_loop-EndsWith size size [] t (omega arith) (omega arith)
