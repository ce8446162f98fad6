-- ===== src/Http/Run.antt =====
-- `HttpResult` of a method that changes its receiver: the state is kept on errors, lost in a panic.
use solicit.Base.{Exec, value, panic}
use solicit.Http.Error.{HttpError}

pub data Run {ℓ κ} (W : Type ℓ) (A : Type κ) : Type (ℓ ⊔ κ) where
  ok : A → W → Run W A
  err : HttpError → W → Run W A
  fault : Run W A

abbrev pub M {ℓ κ} : Type ℓ → Type κ → Type (ℓ ⊔ κ)
M W A = W → Run W A

-- What follows a step: its successor if it succeeded, else its error.
abbrev pub followed_by {ℓ κ μ} :
    {W : Type ℓ} {A : Type κ} {B : Type μ} → Run W A → (A → M W B) → Run W B
followed_by (ok a w) f = f a w
followed_by (err e w) f = err e w
followed_by fault f = fault

-- Sequencing, with `try!` at every step.
infixl 5 ◌>>=◌ ◌>>◌
abbrev pub ◌>>=◌ {ℓ κ μ} : {W : Type ℓ} {A : Type κ} {B : Type μ} → M W A → (A → M W B) → M W B
◌>>=◌ m f w = followed_by (m w) f

abbrev pub ◌>>◌ {ℓ κ} : {W : Type ℓ} {B : Type κ} → M W (Unit {0}) → M W B → M W B
m >> k = m >>= λ _. k

abbrev pub pure {ℓ κ} : {W : Type ℓ} {A : Type κ} → A → M W A
pure a w = ok a w

abbrev pub throw {ℓ κ} : {W : Type ℓ} {A : Type κ} → HttpError → M W A
throw e w = err e w

abbrev pub lift {ℓ κ} : {W : Type ℓ} {A : Type κ} → Exec A → M W A
lift (value a) w = ok a w
lift panic w = fault

abbrev pub modify {ℓ} : {W : Type ℓ} → (W → W) → M W (Unit {0})
modify f w = ok tt (f w)
