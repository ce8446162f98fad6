-- ===== src/Frame/Raw/Padding.antt =====
-- http/frame/mod.rs: what `parse_padded_payload` accepts, and that it undoes the padding.
use solicit.Base.{
  ℕ, ◌+◌, ◌-◌, ◌%◌, ◌≡◌, refl, arith, List, [], ◌∷◌, ◌++◌, none, some, length, take, replicate, ltb,
  if◌then◌else◌, IsByte, value, le→not_ltb, length-append, length-replicate, take-append,
}
use solicit.Frame.Raw.{parse_padded_payload}

-- The result on every payload with a first octet: the padding is rejected exactly if it is longer
-- than the rest, and otherwise that many octets at the end are cut off. It never panics.
pub parse_padded_payload-cons :
    (pad : ℕ) (rest : List ℕ)
    → parse_padded_payload (pad ∷ rest)
      ≡ value
          (if ltb (length rest) pad then none else some (take (length rest - pad) rest, pad % 256))
unfolding parse_padded_payload
parse_padded_payload-cons pad rest = ground arith

pub parse_padded_payload-nil : parse_padded_payload [] ≡ value none
unfolding parse_padded_payload
parse_padded_payload-nil = refl

-- Stripping the padding of a content that was padded by up to 255 octets gives the content and the
-- length of the padding.
pub parse_padded_payload-pad :
    (content : List ℕ) (pad : ℕ)
    → IsByte pad
    → parse_padded_payload (pad ∷ (content ++ replicate pad 0)) ≡ value (some (content, pad))
parse_padded_payload-pad content pad h =
    let whole : length (content ++ replicate pad 0) ≡ length content + pad =
      omega (arith, length-append content (replicate pad 0), length-replicate {A = ℕ} pad 0) in
    let kept : length content + pad - pad ≡ length content = omega arith in
    let small : pad % 256 ≡ pad = omega arith in
    rw (
      parse_padded_payload-cons,
      whole,
      le→not_ltb (length content + pad) pad (omega arith),
      kept,
      small,
      take-append (length content) content (replicate pad 0) refl,
    )
