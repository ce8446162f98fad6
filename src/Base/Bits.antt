-- ===== src/Base/Bits.antt =====
-- Masks, shifts and disjoint ors as arithmetic, from the digit recursion of the native operations.
use Prim.Native.Nat.{
  ℕ, zero, suc, ◌+◌, ◌*◌, ◌/◌, ◌%◌, ◌^◌, ◌≤◌, ◌<◌, min, max, bit_and, bit_or, digits,
  bit_and-bitwise, bit_or-bitwise,
}
use mathlib.Core.Path.{◌≡◌, refl, ap, ◌∙◌}
use native.Mathlib.Omega.{arith}
use native.Mathlib.Nat.{
  pow-suc, one-le-pow, mod-lt, mod-eq_of_lt, div-add-mod', add-mul-mod_self_right,
}

-- The digit recursion of both operations: its fuel does not matter once it covers the first number.
module _ (rest : ℕ → ℕ) (join : ℕ → ℕ → ℕ) where
  enough_fuel : (k l x y : ℕ) → x ≤ k → x ≤ l → digits rest join k x y ≡ digits rest join l x y
  enough_fuel (suc k) (suc l) (suc x) y hk hl =
      let halves = enough_fuel k l (suc x / 2) (y / 2) (omega arith) (omega arith) in
      omega (arith, halves)
  enough_fuel (suc k) (suc l) zero y hk hl = refl
  enough_fuel (suc k) zero zero y hk hl = refl
  enough_fuel (suc k) zero (suc x) y hk hl = absurd (omega arith)
  enough_fuel zero l (suc x) y hk hl = absurd (omega arith)
  enough_fuel zero zero zero y hk hl = refl
  enough_fuel zero (suc l) zero y hk hl = refl

and_step : (x y : ℕ) → bit_and x y ≡ bit_and (x / 2) (y / 2) * 2 + min (x % 2) (y % 2)
and_step zero y =
    let empty : (z : ℕ) → bit_and 0 z ≡ 0 = bit_and-bitwise 0 in
    omega (arith, empty y, empty (y / 2))
and_step (suc x) y =
    let covered =
      enough_fuel (λ z. zero) min x (suc x / 2) (suc x / 2) (y / 2) (omega arith) (omega arith) in
    omega (arith, covered, bit_and-bitwise (suc x) y, bit_and-bitwise (suc x / 2) (y / 2))

or_step : (x y : ℕ) → bit_or x y ≡ bit_or (x / 2) (y / 2) * 2 + max (x % 2) (y % 2)
or_step zero y =
    let same : (z : ℕ) → bit_or 0 z ≡ z = bit_or-bitwise 0 in omega (arith, same y, same (y / 2))
or_step (suc x) y =
    let covered =
      enough_fuel (λ z. z) max x (suc x / 2) (suc x / 2) (y / 2) (omega arith) (omega arith) in
    omega (arith, covered, bit_or-bitwise (suc x) y, bit_or-bitwise (suc x / 2) (y / 2))

-- Both operations with 0 on the right, by halving below a bound.
zeros : (bound x : ℕ) → x ≤ bound → (bit_and x 0 ≡ 0) × (bit_or x 0 ≡ x)
zeros bound zero h = (refl, refl)
zeros zero (suc x) h = absurd (omega arith)
zeros (suc bound) (suc x) h =
    let (no_and, no_or) = zeros bound (suc x / 2) (omega arith) in
    (omega (arith, no_and, and_step (suc x) 0), omega (arith, no_or, or_step (suc x) 0))

-- The number whose k lowest bits are set.
abbrev pub ones : ℕ → ℕ
ones zero = 0
ones (suc k) = 2 * ones k + 1

-- The remainder by an even number, from the remainder of the half.
mod_double : (p a : ℕ) → 0 < p → a % (p * 2) ≡ a / 2 % p * 2 + a % 2
mod_double p a h =
    let rest : ℕ = a / 2 % p * 2 + a % 2 in
    let small : rest < p * 2 = omega (arith, mod-lt (a / 2) h) in
    let whole : a ≡ rest + a / 2 / p * (p * 2) = omega (arith, div-add-mod' (a / 2) p) in
    ap (λ (n : ℕ). n % (p * 2)) whole
    ∙ add-mul-mod_self_right rest (a / 2 / p) (p * 2)
    ∙ mod-eq_of_lt small

-- A mask of the k lowest bits is the remainder by 2 ^ k.
pub bit_and-ones : (k a : ℕ) → bit_and a (ones k) ≡ a % 2 ^ k
bit_and-ones zero a = omega (arith, (zeros a a (omega arith)).0)
bit_and-ones (suc k) a =
    let half : ones (suc k) / 2 ≡ ones k = omega arith in
    and_step a (ones (suc k))
    ∙ rw (half, bit_and-ones k (a / 2), pow-suc 2 k)
        (omega (arith, mod_double (2 ^ k) a (one-le-pow k 2 (omega arith))))

-- An or with bits below 2 ^ k is a sum.
pub bit_or_disjoint : (k a b : ℕ) → b < 2 ^ k → bit_or (a * 2 ^ k) b ≡ a * 2 ^ k + b
bit_or_disjoint zero a b h =
    let none_set : b ≡ 0 = omega arith in
    let one : a * 2 ^ 0 ≡ a = omega arith in
    rw (none_set, one) (omega (arith, (zeros a a (omega arith)).1))
bit_or_disjoint (suc k) a b h =
    let double : a * 2 ^ suc k ≡ a * 2 ^ k * 2 = rw (pow-suc 2 k) (omega arith) in
    let wide : a * 2 ^ suc k / 2 ≡ a * 2 ^ k = omega (arith, double) in
    or_step (a * 2 ^ suc k) b
    ∙ rw (wide, bit_or_disjoint k a (b / 2) (omega (arith, pow-suc 2 k))) (omega (arith, double))
