-- ===== src/Base/Tables.antt =====
-- Facts about octets that are checked by evaluating all 256 values.
use Prim.Native.Nat.{ℕ, zero, suc, ◌+◌, ◌*◌, ◌/◌, ◌<◌, bit_and, bit_or}
use mathlib.Core.Path.{◌≡◌, refl}
use mathlib.Core.Bool.{Bool, true, ◌&&◌}
use native.Mathlib.Omega.{arith}
use solicit.Base.Tests.{◌==◌, ==_iff}

-- The test holds of every number below the limit.
unfoldable pub holds_below : (ℕ → Bool) → ℕ → Bool
holds_below test zero = true
holds_below test (suc limit) = holds_below test limit && test limit

pub holds_below_sound :
    (test : ℕ → Bool) (limit k : ℕ) → k < limit → holds_below test limit ≡ true → test k ≡ true
unfolding holds_below
holds_below_sound test zero k below table = absurd (omega arith)
holds_below_sound test (suc limit) k below table = ground (arith, holds_below_sound test limit k)

-- A test that holds of every octet.
pub octet_table :
    (test : ℕ → Bool) → holds_below test 256 ≡ true → (k : ℕ) → k < 256 → test k ≡ true
octet_table test table k below = holds_below_sound test 256 k below table

top_bit_table : holds_below (λ x. bit_and x 0x80 == x / 128 * 128) 256 ≡ true
unfolding holds_below
top_bit_table = refl

pub top_bit : (x : ℕ) → x < 256 → bit_and x 0x80 ≡ x / 128 * 128
top_bit x h = (==_iff _ _).0 (octet_table _ top_bit_table x h)

set_top_bit_table : holds_below (λ x. bit_or x 0x80 == x + 128) 128 ≡ true
unfolding holds_below
set_top_bit_table = refl

pub set_top_bit : (x : ℕ) → x < 128 → bit_or x 0x80 ≡ x + 128
set_top_bit x h = (==_iff _ _).0 (holds_below_sound _ 128 x h set_top_bit_table)

set_no_bit_table : holds_below (λ x. bit_or x 0 == x) 256 ≡ true
unfolding holds_below
set_no_bit_table = refl

pub set_no_bit : (x : ℕ) → x < 256 → bit_or x 0 ≡ x
set_no_bit x h = (==_iff _ _).0 (octet_table _ set_no_bit_table x h)
