-- ===== src/Http/Window/Bounds.antt =====
-- http/mod.rs: windows stay in the range of an i32, and change by exactly what was asked.
use solicit.Base.{
  ℕ, inl, inr, ◌⊎◌, Bool-cases, ◌-◌, ◌^◌, ◌≤◌, ◌<◌, ◌≡◌, refl, arith, Bool, true, false,
}
use solicit.Base.Int.{ℤ, pos, negsuc, ◌+ℤ◌, ◌-ℤ◌, ◌≤ℤ◌, IsI32, fits_i32}
use solicit.Http.Window.{WindowSize, try_increase, try_decrease}

abbrev pub max_window : ℤ
max_window = pos (2 ^ 31 - 1)

abbrev pub min_window : ℤ
min_window = negsuc (2 ^ 31 - 1)

-- What `try_increase` did to a window.
abbrev pub Increased : WindowSize → ℕ → WindowSize × Bool → Type 0
Increased w delta (w', true) =
    (w'.size ≡ w.size +ℤ pos delta) × (delta < 2 ^ 31) × (w.size +ℤ pos delta ≤ℤ max_window)
Increased w delta (w', false) =
    (w' ≡ w) × ((2 ^ 31 ≤ delta) ⊎ (max_window +ℤ pos 1 ≤ℤ w.size +ℤ pos delta))

-- `try_increase` of a window in the range of an i32 either adds the delta, which is below 2 ^ 31, and
-- the sum is at most 2 ^ 31 - 1, or it is an error, leaves the window alone, and the delta or the sum
-- is beyond that. The window stays in the range.
pub try_increase-Increased :
    (w : WindowSize) (delta : ℕ)
    → IsI32 w.size
    → Increased w delta (try_increase w delta) × IsI32 (try_increase w delta).0.size
unfolding try_increase ◌+ℤ◌
try_increase-Increased w delta h = (ground arith, ground arith)

abbrev pub Decreased : WindowSize → ℤ → WindowSize × Bool → Type 0
Decreased w delta (w', true) = (w'.size ≡ w.size -ℤ delta) × (min_window ≤ℤ w.size -ℤ delta)
Decreased w delta (w', false) = (w' ≡ w) × (w.size -ℤ delta ≤ℤ min_window -ℤ pos 1)

-- `try_decrease` of a window in the range of an i32 by a delta that is not negative either subtracts
-- it, and the difference is at least -2 ^ 31, or it is an error, leaves the window alone, and the
-- difference is below that. The window stays in the range.
pub try_decrease-Decreased :
    (w : WindowSize) (n : ℕ)
    → IsI32 w.size
    → Decreased w (pos n) (try_decrease w (pos n)) × IsI32 (try_decrease w (pos n)).0.size
unfolding try_decrease ◌-ℤ◌
try_decrease-Decreased w n h = (ground arith, ground arith)

try_decrease-fits :
    (w : WindowSize) (delta : ℤ)
    → fits_i32 (w.size -ℤ delta) ≡ true
    → try_decrease w delta ≡ (record { size = w.size -ℤ delta }, true)
unfolding try_decrease
try_decrease-fits w delta h = rw (try_decrease, h) refl

try_decrease-over :
    (w : WindowSize) (delta : ℤ)
    → fits_i32 (w.size -ℤ delta) ≡ false
    → try_decrease w delta ≡ (w, false)
unfolding try_decrease
try_decrease-over w delta h = rw (try_decrease, h) refl

-- The two results of a decrease, as equations.
pub try_decrease_cases :
    (w : WindowSize) (n : ℕ)
    → IsI32 w.size
    → ((min_window ≤ℤ w.size -ℤ pos n)
        × (try_decrease w (pos n) ≡ (record { size = w.size -ℤ pos n }, true)))
      ⊎ ((w.size -ℤ pos n ≤ℤ min_window -ℤ pos 1) × (try_decrease w (pos n) ≡ (w, false)))
unfolding ◌-ℤ◌
try_decrease_cases w n h = elim (Bool-cases (fits_i32 (w.size -ℤ pos n))) [
  | inl fits ↦ inl (ground arith, try_decrease-fits w (pos n) fits)
  | inr over ↦ inr (ground arith, try_decrease-over w (pos n) over)
]
