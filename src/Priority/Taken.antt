-- ===== src/Priority/Taken.antt =====
-- http/priority.rs: what a chunk that was taken leaves of the streams.
use solicit.Base.{
  length, ◌≤◌, ℕ, ◌≡◌, ◌≢◌, refl, sym, ap, ◌∙◌, arith, inl, inr, ◌⊎◌, List, ◌∷◌, none, some, ◌==◌,
  ==_iff, ==_refl, Bool-cases,
}
use solicit.Session.Stream.{DefaultStream}
use solicit.Session.State.{lookup}
use solicit.Session.State.Maps.{Distinct, AllKeys}
use solicit.Priority.{DataChunk}
use solicit.Priority.Total.{ids}
use solicit.Priority.Chunks.{InBounds, Next, Taken, here, there}

module _ {size : ℕ} {c : DataChunk} where
  pub Taken-InBounds :
      (m m' : List (ℕ × DefaultStream)) → Taken size c m m' → InBounds m → InBounds m'
  Taken-InBounds _ _ (here s s' m next) (within, f) = (next.3, f)
  Taken-InBounds _ _ (there i s m m' taken) (within, f) = (within, Taken-InBounds m m' taken f)

  pub length-Taken : (m m' : List (ℕ × DefaultStream)) → Taken size c m m' → length c.content ≤ size
  length-Taken _ _ (here s s' m next) = next.0
  length-Taken _ _ (there i s m m' taken) = length-Taken m m' taken

  pub Taken-ids : (m m' : List (ℕ × DefaultStream)) → Taken size c m m' → ids m' ≡ ids m
  Taken-ids _ _ (here s s' m next) = refl
  Taken-ids _ _ (there i s m m' taken) = ap (◌∷◌ i) (Taken-ids m m' taken)

  pub Taken-AllKeys :
      (P : ℕ → Type 0) (m m' : List (ℕ × DefaultStream))
      → Taken size c m m'
      → AllKeys P m
      → P c.stream_id × AllKeys P m'
  Taken-AllKeys P _ _ (here s s' m next) (p, ps) = (p, (p, ps))
  Taken-AllKeys P _ _ (there i s m m' taken) (p, ps) =
      let (q, qs) = Taken-AllKeys P m m' taken ps in (q, (p, qs))

  Taken-found : (m m' : List (ℕ × DefaultStream)) → Taken size c m m' → lookup c.stream_id m ≢ none
  unfolding lookup
  Taken-found _ _ (here s s' m next) missing =
      let found : lookup c.stream_id ((c.stream_id, s) ∷ m) ≡ some s =
        rw (==_refl c.stream_id) refl in
      let both : some s ≡ none = sym found ∙ missing in absurd cc
  Taken-found _ _ (there i s m m' taken) missing = elim (Bool-cases (i == c.stream_id)) [
    | inl e ↦ ground arith
    | inr e ↦ absurd (Taken-found m m' taken (ground arith))
  ]

  -- A stream has given the chunk, or it is as before.
  pub Taken-lookup :
      (j : ℕ) (y : DefaultStream) (m m' : List (ℕ × DefaultStream))
      → Taken size c m m'
      → Distinct m
      → lookup j m ≡ some y
      → ((c.stream_id ≡ j) × ((y' : DefaultStream) × (lookup j m' ≡ some y') × Next size c y y'))
        ⊎ ((c.stream_id ≢ j) × (lookup j m' ≡ some y))
  unfolding lookup
  Taken-lookup j y _ _ (here s s' m next) d found = elim (Bool-cases (c.stream_id == j)) [
    | inl e ↦
        let same : s ≡ y = ground arith in
        inl ((==_iff c.stream_id j).0 e, (s', rw e refl, rw⁻¹ same next))
    | inr e ↦ inr (λ same. ground arith, rw e (ground arith))
  ]
  Taken-lookup j y _ _ (there i s m m' taken) (fresh, d) found = elim (Bool-cases (i == j)) [
    | inl e ↦
        let at : i ≡ j = (==_iff i j).0 e in
        let gone : lookup j m ≡ none = rw⁻¹ at fresh in
        inr (λ same. Taken-found m m' taken (rw same gone), rw e (ground arith))
    | inr e ↦
        let rest : lookup j m ≡ some y = ground arith in
        elim (Taken-lookup j y m m' taken d rest) [
          | inl (same, (y', at, next)) ↦ inl (same, (y', rw e at, next))
          | inr (other, at) ↦ inr (other, rw e at)
        ]
  ]
