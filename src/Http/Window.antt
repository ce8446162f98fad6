-- ===== src/Http/Window.antt =====
-- http/mod.rs: flow-control windows. A method returns the window after it, and whether it was `Ok`.
pub mod Bounds
use solicit.Base.{ℕ, Bool, true, false, Option, none, some, ltb, if◌then◌else◌}
use solicit.Base.Int.{ℤ, ◌+ℤ◌, ◌-ℤ◌, fits_i32, as_i32}

abbrev pub initial_connection_window_size : ℤ
initial_connection_window_size = ℤ.pos 65535

pub record WindowSize : Type 0 where
  pub size : ℤ

unfoldable pub new : ℤ → WindowSize
new size = record { size = size }

-- `i32::checked_add` and `i32::checked_sub`.
unfoldable pub checked_add : ℤ → ℤ → Option ℤ
unfolding ◌+ℤ◌
checked_add a b = if fits_i32 (a +ℤ b) then some (a +ℤ b) else none

unfoldable pub checked_sub : ℤ → ℤ → Option ℤ
unfolding ◌-ℤ◌
checked_sub a b = if fits_i32 (a -ℤ b) then some (a -ℤ b) else none

unfoldable pub try_increase : WindowSize → ℕ → WindowSize × Bool
unfolding checked_add
try_increase w delta =
    if ltb 0x7fff_ffff delta then (w, false) else (elim (checked_add w.size (as_i32 delta)) [
      | none ↦ (w, false)
      | some next_val ↦ (record w { size = next_val }, true)
    ])

unfoldable pub try_decrease : WindowSize → ℤ → WindowSize × Bool
unfolding checked_sub
try_decrease w delta = elim (checked_sub w.size delta) [
  | some new ↦ (record w { size = new }, true)
  | none ↦ (w, false)
]
