-- ===== src/Frame/Raw/Flags.antt =====
-- http/frame: setting a flag of an octet sets this flag and leaves the others as they are.
use solicit.Base.{ℕ, ◌^◌, ◌<◌, ◌≡◌, refl, arith, Bool, true, false, ◌||◌, ◌==◌, IsByte}
use solicit.Base.Tables.{octet_table, holds_below, holds_below_sound}
use solicit.Frame.Raw.{has_flag, with_flag}

same : Bool → Bool → Bool
same true b = b
same false true = false
same false false = true

same-eq : (a b : Bool) → same a b ≡ true → a ≡ b
unfolding same
same-eq a b h = ground arith

-- The test of one pair of flags on one octet.
flag_law : ℕ → ℕ → ℕ → Bool
flag_law i j f = same (has_flag (with_flag f (2 ^ i)) (2 ^ j)) ((i == j) || has_flag f (2 ^ j))

flag_table : holds_below (λ i. holds_below (λ j. holds_below (flag_law i j) 256) 8) 8 ≡ true
unfolding holds_below flag_law same has_flag with_flag
flag_table = refl

-- After flag `i` of an octet was set, flag `j` is set exactly if it is that flag or was set before.
has_flag-with_flag :
    (i j f : ℕ)
    → i < 8
    → j < 8
    → IsByte f
    → has_flag (with_flag f (2 ^ i)) (2 ^ j) ≡ ((i == j) || has_flag f (2 ^ j))
unfolding flag_law
has_flag-with_flag i j f hi hj hf =
    same-eq _ _
      (octet_table _ (holds_below_sound _ 8 j hj (holds_below_sound _ 8 i hi flag_table)) f hf)
