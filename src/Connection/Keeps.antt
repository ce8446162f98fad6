-- ===== src/Connection/Keeps.antt =====
-- What holds of a state after a step, and the results that a step can have.
use solicit.Base.{◌≡◌, refl, ◌⊎◌, inl, inr, Exec, value, panic}
use solicit.Http.Error.{HttpError}
use solicit.Http.Run.{Run, ok, err, fault, M, followed_by, lift}
use solicit.Connection.Send.{beside_first, beside_second, on_first, on_second}

module _ {ℓ κ} {W : Type ℓ} {A : Type κ} where
  -- The state after a success or an error has the property.
  abbrev pub After : (W → Type 0) → Run W A → Type 0
  After P (ok a w) = P w
  After P (err e w) = P w
  After P fault = Unit {0}

  pub Run-cases :
      (r : Run W A)
      → ((a : A) × (w : W) × (r ≡ ok a w))
        ⊎ (((e : HttpError) × (w : W) × (r ≡ err e w)) ⊎ (r ≡ fault))
  Run-cases (ok a w) = inl (a, w, refl)
  Run-cases (err e w) = inr (inl (e, w, refl))
  Run-cases fault = inr (inr refl)

pub Exec-cases {ℓ} : {A : Type ℓ} (x : Exec A) → ((a : A) × (x ≡ value a)) ⊎ (x ≡ panic)
Exec-cases (value a) = inl (a, refl)
Exec-cases panic = inr refl

-- Every result of a step keeps the property.
abbrev pub Keeps {ℓ κ} : {W : Type ℓ} {A : Type κ} → (W → Type 0) → M W A → Type ℓ
Keeps {W} P m = (w : W) → P w → After P (m w)

pub followed_by-After {ℓ κ μ} :
    {W : Type ℓ} {A : Type κ} {B : Type μ} (P : W → Type 0) (r : Run W A) (f : A → M W B)
    → After P r
    → ((a : A) → Keeps P (f a))
    → After P (followed_by r f)
followed_by-After P (ok a w) f h k = k a w h
followed_by-After P (err e w) f h k = h
followed_by-After P fault f h k = tt

pub lift-Keeps {ℓ κ} :
    {W : Type ℓ} {A : Type κ} (P : W → Type 0) (x : Exec A) → Keeps P (lift {W = W} x)
lift-Keeps P (value a) w h = h
lift-Keeps P panic w h = tt

-- A property of one half of the state, under steps of either half.
module _ {ℓ} {W V : Type 0} {A : Type ℓ} (P : V → Type 0) where
  pub on_second-Keeps : (m : M V A) → Keeps P m → Keeps (λ (s : W × V). P s.1) (on_second m)
  on_second-Keeps m k (w, v) h = beside (m v) (k v h)
    where
      beside : (r : Run V A) → After P r → After (λ (s : W × V). P s.1) (beside_second w r)
      beside (ok a v') h' = h'
      beside (err e v') h' = h'
      beside fault h' = tt

  pub on_first-Keeps : (m : M W A) → Keeps (λ (s : W × V). P s.1) (on_first m)
  on_first-Keeps m (w, v) h = beside (m w)
    where
      beside : (r : Run W A) → After (λ (s : W × V). P s.1) (beside_first v r)
      beside (ok a w') = h
      beside (err e w') = h
      beside fault = tt
