-- ===== src/Base/Words.antt =====
-- Bytes and 32-bit words: the shifts, casts and masks that the frame code writes out.
use Prim.Native.Nat.{ℕ, ◌+◌, ◌*◌, ◌/◌, ◌%◌, ◌^◌, ◌<◌, bit_and, bit_or}
use mathlib.Core.Path.{◌≡◌, ◌∙◌}
use native.Mathlib.Omega.{arith}
use solicit.Base.Bits.{bit_and-ones, bit_or_disjoint}

abbrev pub IsByte : ℕ → Type 0
IsByte b = b < 256

abbrev pub IsU32 : ℕ → Type 0
IsU32 n = n < 2 ^ 32

-- The range of a stream identifier: 31 bits.
abbrev pub IsU31 : ℕ → Type 0
IsU31 n = n < 2 ^ 31

abbrev pub IsU24 : ℕ → Type 0
IsU24 n = n < 2 ^ 24

-- `(x as u32) << k`
abbrev pub shl32 : ℕ → ℕ → ℕ
shl32 x k = x * 2 ^ k % 2 ^ 32

-- `((x >> k) & 0xFF) as u8`
unfoldable pub octet : ℕ → ℕ → ℕ
octet x k = bit_and (x / 2 ^ k) 0xff % 256

pub octet_lem : (x k : ℕ) → octet x k ≡ x / 2 ^ k % 256
unfolding octet
octet_lem x k = omega (arith, bit_and-ones 8 (x / 2 ^ k))

pub octet-IsByte : (x k : ℕ) → IsByte (octet x k)
octet-IsByte x k = omega (arith, octet_lem x k)

-- `(a << 8) | b`
unfoldable pub join_2 : ℕ → ℕ → ℕ
join_2 a b = bit_or (a * 2 ^ 8 % 2 ^ 16) b

-- `(a << 16) | (b << 8) | (c << 0)`
unfoldable pub join_3 : ℕ → ℕ → ℕ → ℕ
join_3 a b c = bit_or (bit_or (shl32 a 16) (shl32 b 8)) (shl32 c 0)

-- `(a << 24) | (b << 16) | (c << 8) | (d << 0)`
unfoldable pub join_4 : ℕ → ℕ → ℕ → ℕ → ℕ
join_4 a b c d = bit_or (bit_or (bit_or (shl32 a 24) (shl32 b 16)) (shl32 c 8)) (shl32 d 0)

-- `n & !0x80000000`
unfoldable pub clear_top_bit : ℕ → ℕ
clear_top_bit n = bit_and n 0x7fff_ffff

pub clear_top_bit_lem : (n : ℕ) → clear_top_bit n ≡ n % 2 ^ 31
unfolding clear_top_bit
clear_top_bit_lem n = bit_and-ones 31 n

pub join_2_lem : (a b : ℕ) → IsByte a → IsByte b → join_2 a b ≡ a * 256 + b
unfolding join_2
join_2_lem a b ha hb =
    let fits : a * 2 ^ 8 % 2 ^ 16 ≡ a * 2 ^ 8 = omega arith in rw fits (bit_or_disjoint 8 a b hb)

pub join_3_lem :
    (a b c : ℕ) → IsByte a → IsByte b → IsByte c → join_3 a b c ≡ a * 65536 + b * 256 + c
unfolding join_3
join_3_lem a b c ha hb hc =
    let fa : shl32 a 16 ≡ a * 256 * 2 ^ 8 = omega arith in
    let fb : shl32 b 8 ≡ b * 2 ^ 8 = omega arith in
    let fc : shl32 c 0 ≡ c = omega arith in
    let high : bit_or (a * 2 ^ 16) (b * 2 ^ 8) ≡ (a * 256 + b) * 2 ^ 8 =
      bit_or_disjoint 16 a (b * 2 ^ 8) (omega arith) ∙ omega arith in
    let fa' : shl32 a 16 ≡ a * 2 ^ 16 = omega arith in
    rw (fa', fb, fc, high) (bit_or_disjoint 8 (a * 256 + b) c hc ∙ omega arith)

pub join_4_lem :
    (a b c d : ℕ)
    → IsByte a
    → IsByte b
    → IsByte c
    → IsByte d
    → join_4 a b c d ≡ a * 16777216 + b * 65536 + c * 256 + d
unfolding join_4
join_4_lem a b c d ha hb hc hd =
    let fa : shl32 a 24 ≡ a * 2 ^ 24 = omega arith in
    let fb : shl32 b 16 ≡ b * 2 ^ 16 = omega arith in
    let fc : shl32 c 8 ≡ c * 2 ^ 8 = omega arith in
    let fd : shl32 d 0 ≡ d = omega arith in
    let first : bit_or (a * 2 ^ 24) (b * 2 ^ 16) ≡ (a * 256 + b) * 2 ^ 16 =
      bit_or_disjoint 24 a (b * 2 ^ 16) (omega arith) ∙ omega arith in
    let second : bit_or ((a * 256 + b) * 2 ^ 16) (c * 2 ^ 8) ≡ ((a * 256 + b) * 256 + c) * 2 ^ 8 =
      bit_or_disjoint 16 (a * 256 + b) (c * 2 ^ 8) (omega arith) ∙ omega arith in
    rw (fa, fb, fc, fd, first, second)
      (bit_or_disjoint 8 ((a * 256 + b) * 256 + c) d hd ∙ omega arith)

-- The four octets of a 32-bit word join to the word.
pub join_4-octet : (n : ℕ) → IsU32 n → join_4 (octet n 24) (octet n 16) (octet n 8) (octet n 0) ≡ n
join_4-octet n h =
    rw (octet_lem n 24, octet_lem n 16, octet_lem n 8, octet_lem n 0)
      (join_4_lem (n / 2 ^ 24 % 256) (n / 2 ^ 16 % 256) (n / 2 ^ 8 % 256) (n / 2 ^ 0 % 256)
          (omega arith) (omega arith) (omega arith) (omega arith)
        ∙ omega arith)

-- The three octets of a 24-bit length join to the length.
pub join_3-octet : (n : ℕ) → IsU24 n → join_3 (octet n 16) (octet n 8) (octet n 0) ≡ n
join_3-octet n h =
    rw (octet_lem n 16, octet_lem n 8, octet_lem n 0)
      (join_3_lem (n / 2 ^ 16 % 256) (n / 2 ^ 8 % 256) (n / 2 ^ 0 % 256) (omega arith) (omega arith)
          (omega arith)
        ∙ omega arith)

pub join_2-octet : (n : ℕ) → n < 2 ^ 16 → join_2 (octet n 8) (octet n 0) ≡ n
join_2-octet n h =
    rw (octet_lem n 8, octet_lem n 0)
      (join_2_lem (n / 2 ^ 8 % 256) (n / 2 ^ 0 % 256) (omega arith) (omega arith) ∙ omega arith)

pub clear_top_bit_small : (n : ℕ) → IsU31 n → clear_top_bit n ≡ n
clear_top_bit_small n h = omega (arith, clear_top_bit_lem n)
