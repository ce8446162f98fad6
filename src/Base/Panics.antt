-- ===== src/Base/Panics.antt =====
-- Computations that may panic, and the indexing and slicing operations of the language that do so.
use Prim.Native.Nat.{ℕ, ◌-◌}
use mathlib.Core.Path.{◌≡◌}
use native.Mathlib.Omega.{arith}
use mathlib.Core.Option.{Option, none, some}
use mathlib.Core.List.{List, ◌++◌}
use solicit.Base.Tests.{ltb, if◌then◌else◌, le→not_ltb}
use solicit.Base.Lists.{length, get_elem?, take, drop, length-append, take-append, drop-append}

pub data Exec {ℓ} (A : Type ℓ) : Type ℓ where
  value : A → Exec A
  panic : Exec A

infixl 5 ◌>>=◌
abbrev pub ◌>>=◌ {ℓ κ} : {A : Type ℓ} {B : Type κ} → Exec A → (A → Exec B) → Exec B
value a >>= f = f a
panic >>= f = panic

-- `Option::unwrap`.
abbrev pub unwrap {ℓ} : {A : Type ℓ} → Option A → Exec A
unwrap none = panic
unwrap (some a) = value a

-- `buf[i]`
abbrev pub index {ℓ} : {A : Type ℓ} → List A → ℕ → Exec A
index buf i = unwrap (get_elem? buf i)

-- `&buf[n..]`
abbrev pub slice_from {ℓ} : {A : Type ℓ} → List A → ℕ → Exec (List A)
slice_from buf n = if ltb (length buf) n then panic else value (drop n buf)

-- `&buf[..n]`
abbrev pub slice_to {ℓ} : {A : Type ℓ} → List A → ℕ → Exec (List A)
slice_to buf n = if ltb (length buf) n then panic else value (take n buf)

-- `&buf[m..n]`
abbrev pub slice {ℓ} : {A : Type ℓ} → List A → ℕ → ℕ → Exec (List A)
slice buf m n =
    if ltb (length buf) n
    then panic
    else if ltb n m
    then panic
    else value (take (n - m) (drop m buf))

-- A slice at the end of a prefix of known length.
pub slice_from-append {ℓ} :
    {A : Type ℓ} (n : ℕ) (xs ys : List A) → length xs ≡ n → slice_from (xs ++ ys) n ≡ value ys
slice_from-append n xs ys h =
    rw
      (le→not_ltb (length (xs ++ ys)) n (omega (arith, length-append xs ys)), drop-append n xs ys h)

pub slice_to-append {ℓ} :
    {A : Type ℓ} (n : ℕ) (xs ys : List A) → length xs ≡ n → slice_to (xs ++ ys) n ≡ value xs
slice_to-append n xs ys h =
    rw
      (le→not_ltb (length (xs ++ ys)) n (omega (arith, length-append xs ys)), take-append n xs ys h)

-- What holds of the value of a computation that does not panic.
abbrev pub OnValue : {A : Type 0} → (A → Type 0) → Exec A → Type 0
OnValue P (value a) = P a
OnValue P panic = Unit {0}

pub bind-OnValue :
    {A B : Type 0} (P : A → Type 0) (Q : B → Type 0) (x : Exec A) (f : A → Exec B)
    → OnValue P x
    → ((a : A) → P a → OnValue Q (f a))
    → OnValue Q (x >>= f)
bind-OnValue P Q (value a) f h k = k a h
bind-OnValue P Q panic f h k = tt

pub OnValue-any : {A : Type 0} (x : Exec A) → OnValue (λ a. Unit {0}) x
OnValue-any (value a) = tt
OnValue-any panic = tt

pub OnValue-weaken :
    {A : Type 0} (P Q : A → Type 0) (x : Exec A) → ((a : A) → P a → Q a) → OnValue P x → OnValue Q x
OnValue-weaken P Q (value a) f h = f a h
OnValue-weaken P Q panic f h = tt
