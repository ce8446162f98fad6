-- ===== src/Session/State/Closed.antt =====
-- http/session.rs: `get_closed` takes the closed streams out of the session, and no other.
use solicit.Base.{
  ℕ, ◌≡◌, ◌≢◌, ◌∙◌, refl, ap, arith, suc, Bool, true, false, ◌||◌, inl, inr, List, [], ◌∷◌, Option,
  none, some, ◌==◌, if◌then◌else◌, length, value, Option-cases,
}
use solicit.Session.Stream.{Stream, is_closed}
use solicit.Session.State.{lookup, remove, SessionState, remove_all, closed_ids, get_closed}
use solicit.Session.State.Maps.{lookup-remove, Distinct}

abbrev pub contains : ℕ → List ℕ → Bool
contains j [] = false
contains j (i ∷ ids) = i == j || contains j ids

abbrev pub NoRepeats : List ℕ → Type 0
NoRepeats [] = Unit {0}
NoRepeats (i ∷ ids) = (contains i ids ≡ false) × NoRepeats ids

module _ {S : Type 0} where
  abbrev without : List ℕ → List (ℕ × S) → List (ℕ × S)
  without [] m = m
  without (i ∷ ids) m = without ids (remove i m)

  lookup-without :
      (j : ℕ) (ids : List ℕ) (m : List (ℕ × S))
      → lookup j (without ids m) ≡ (if contains j ids then none else lookup j m)
  lookup-without j [] m = refl
  lookup-without j (i ∷ ids) m =
      ground (arith, lookup-without j ids (remove i m), lookup-remove i j m)

  -- With identifiers that are all found, and none twice, `unwrap` does not panic.
  remove_all_total :
      (ids : List ℕ) (st : SessionState S)
      → NoRepeats ids
      → ((i : ℕ) → contains i ids ≡ true → lookup i st.streams ≢ none)
      → (ss : List S) × (remove_all ids st
          ≡ value (record st { streams = without ids st.streams }, ss))
        × (length ss ≡ length ids)
  unfolding remove_all
  remove_all_total [] st n f = ([], refl, refl)
  remove_all_total (i ∷ ids) st n f = elim (Option-cases (lookup i st.streams)) [
    | inl e ↦ absurd (f i (ground arith) e)
    | inr (s, e) ↦
        let (ss, p, q) =
          remove_all_total ids (record st { streams = remove i st.streams }) n.1
            (λ k c l. f k (ground arith) (ground (arith, lookup-remove i k st.streams, n.0))) in
        (s ∷ ss, rw (e, p), ap suc q)
  ]

module _ {S : Type 0} ⦃t : Stream S⦄ where
  abbrev pub closed_at : Option S → Bool
  closed_at none = false
  closed_at (some s) = is_closed s

  pub contains-closed_ids :
      (j : ℕ) (m : List (ℕ × S)) → Distinct m → contains j (closed_ids m) ≡ closed_at (lookup j m)
  unfolding closed_ids lookup
  contains-closed_ids j [] d = refl
  contains-closed_ids j ((i, s) ∷ m) d = ground (arith, contains-closed_ids j m d.1)

  pub closed_ids-NoRepeats : (m : List (ℕ × S)) → Distinct m → NoRepeats (closed_ids m)
  unfolding closed_ids
  closed_ids-NoRepeats [] d = tt
  closed_ids-NoRepeats ((i, s) ∷ m) d =
      ground (arith, closed_ids-NoRepeats m d.1, contains-closed_ids i m d.1)

  -- If the identifiers are distinct, `get_closed` does not panic. Afterwards the closed streams are
  -- gone, every other stream is where it was, and as many streams are returned as were closed.
  pub get_closed_total :
      (st : SessionState S)
      → Distinct st.streams
      → (st' : SessionState S) × (ss : List S) × (get_closed st ≡ value (st', ss))
        × (length ss ≡ length (closed_ids st.streams))
        × ((j : ℕ)
            → lookup j st'.streams
              ≡ (if closed_at (lookup j st.streams) then none else lookup j st.streams))
  unfolding get_closed
  get_closed_total st d =
      let m : List (ℕ × S) = st.streams in
      let (ss, p, q) =
        remove_all_total (closed_ids m) st (closed_ids-NoRepeats m d)
          (λ i c l. cc (c, contains-closed_ids i m d, ap closed_at l)) in
      (
        record st { streams = without (closed_ids m) m },
        ss,
        p,
        q,
        λ j. lookup-without j (closed_ids m) m ∙ rw (contains-closed_ids j m d),
      )
