-- ===== src/Connection/Repeat.antt =====
-- client/simple.rs and server/mod.rs: the loop `while let SendStatus::Sent = ... {}`.
use solicit.Base.{◌≢◌, ℕ, zero, suc, ◌<◌, ◌≡◌, refl, sym, ◌∙◌, arith, inl, inr, ◌⊎◌}
use solicit.Http.Error.{HttpError}
use solicit.Http.Run.{Run, ok, err, fault, M, followed_by, pure}
use solicit.Connection.Keeps.{Run-cases}
use solicit.Connection.Send.{SendStatus, sent, nothing}

abbrev pub after_status : {W : Type 0} → M W (Unit {0}) → SendStatus → M W (Unit {0})
after_status next sent = next
after_status next nothing = pure tt

-- The loop, with a bound on its turns; a loop that has none left is a `fault`.
unfoldable pub repeat : {W : Type 0} → M W SendStatus → ℕ → M W (Unit {0})
repeat step zero w = fault
repeat step (suc n) w = followed_by (step w) (after_status (repeat step n))

-- The result of a loop that ended: what holds then, where it is no error.
abbrev pub Ends : {W : Type 0} → (W → Type 0) → Run W (Unit {0}) → Type 0
Ends {W} Over r = ((w : W) × (r ≡ ok tt w) × Over w) ⊎ ((e : HttpError) × (w : W) × (r ≡ err e w))

module _ {W : Type 0} (step : M W SendStatus) where
  pub repeat-zero : (w w' : W) → repeat step zero w ≢ ok tt w'
  unfolding repeat
  repeat-zero w w' done = absurd cc

  -- The first turn of a loop that ended without an error: its last, or one that the rest follows.
  pub repeat-turn :
      (n : ℕ) (w w' : W)
      → repeat step (suc n) w ≡ ok tt w'
      → (step w ≡ ok nothing w')
        ⊎ ((w1 : W) × (step w ≡ ok sent w1) × (repeat step n w1 ≡ ok tt w'))
  unfolding repeat
  repeat-turn n w w' done = elim (Run-cases (step w)) [
    | inl (sent, w1, e) ↦
        let rest : repeat step (suc n) w ≡ repeat step n w1 = rw (repeat, e) refl in
        inr (w1, e, sym rest ∙ done)
    | inl (nothing, w1, e) ↦
        let rest : repeat step (suc n) w ≡ ok tt w1 = rw (repeat, e) refl in
        let same : w1 ≡ w' = cc in inl (rw (sym same) e)
    | inr (inl (x, w1, e)) ↦
        let rest : repeat step (suc n) w ≡ err x w1 = rw (repeat, e) refl in absurd cc
    | inr (inr e) ↦ let rest : repeat step (suc n) w ≡ fault = rw (repeat, e) refl in absurd cc
  ]

module _ {W : Type 0} (step : M W SendStatus) (Good Over : W → Type 0) (left : W → ℕ) where
  -- A turn that sent something has less left, one that sent nothing is the last, or it is an error.
  abbrev pub Progress : W → Type 0
  Progress w =
      ((w' : W) × (step w ≡ ok sent w') × Good w' × (left w' < left w))
      ⊎ (((w' : W) × (step w ≡ ok nothing w') × Over w')
          ⊎ ((e : HttpError) × (w' : W) × (step w ≡ err e w')))

  -- With more turns than there is left, the loop ends.
  pub repeat-Ends :
      ((w : W) → Good w → Progress w)
      → (n : ℕ) (w : W) → left w < n
      → Good w
      → Ends Over (repeat step n w)
  unfolding repeat
  repeat-Ends progress zero w enough good = absurd (omega arith)
  repeat-Ends progress (suc n) w enough good = elim (progress w good) [
    | inl (w', e, good', less) ↦ rw (repeat, e) (repeat-Ends progress n w' (omega arith) good')
    | inr (inl (w', e, over)) ↦ inl (w', rw (repeat, e) refl, over)
    | inr (inr (x, w', e)) ↦ inr (x, w', rw (repeat, e) refl)
  ]
