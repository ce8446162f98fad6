-- ===== src/Http/Response/Octets.antt =====
-- http/mod.rs: the equality of octets.
use solicit.Base.{ℕ, ◌≡◌, refl, arith, true, ==_refl, List, [], ◌∷◌}
use solicit.Http.Response.{bytes_eq}

pub bytes_eq_sound : (xs ys : List ℕ) → bytes_eq xs ys ≡ true → xs ≡ ys
unfolding bytes_eq
bytes_eq_sound [] [] h = refl
bytes_eq_sound [] (y ∷ ys) h = absurd cc
bytes_eq_sound (x ∷ xs) [] h = absurd cc
bytes_eq_sound (x ∷ xs) (y ∷ ys) h = ground (arith, bytes_eq_sound xs ys)

pub bytes_eq_refl : (xs : List ℕ) → bytes_eq xs xs ≡ true
unfolding bytes_eq
bytes_eq_refl [] = refl
bytes_eq_refl (x ∷ xs) = rw (==_refl x, bytes_eq_refl xs) refl
