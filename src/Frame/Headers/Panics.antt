-- ===== src/Frame/Headers/Panics.antt =====
-- http/frame/headers.rs: the payloads on which parsing a HEADERS frame panics.
use solicit.Base.{
  ℕ, ◌<◌, ◌≤◌, ◌≡◌, refl, arith, inl, inr, ◌⊎◌, ◌↔◌, List, [], ◌∷◌, Bool, true, false, Option, some,
  value, panic, length, ltb, ltb→lt, IsByte, IsU31, IsU24, slice_from-append, slice_to-append,
  ==_refl, Bool-cases,
}
use solicit.Frame.Header.{FrameHeader}
use solicit.Frame.Raw.{RawFrame, raw_from, has_flag}
use solicit.Frame.Wire.{wire, header-wire, payload-wire}
use solicit.Frame.Headers.{
  StreamDependency, parse_dependency, bitmask, priority, padded, strip_padding, split_dependency,
  from_payload, from_raw,
}

split_dependency_panics :
    (actual : List ℕ) → length actual < 5 → split_dependency actual true ≡ panic
unfolding split_dependency
split_dependency_panics actual h = ground arith

split_dependency_total :
    (actual : List ℕ) (b : Bool)
    → (b ≡ true → 5 ≤ length actual)
    → (r : List ℕ × Option StreamDependency) × (split_dependency actual b ≡ value r)
unfolding split_dependency parse_dependency
split_dependency_total actual false h = (_, refl)
split_dependency_total (a ∷ b ∷ c ∷ d ∷ e ∷ rest) true h =
    rw
      (
        slice_from-append 5 (a ∷ b ∷ c ∷ d ∷ e ∷ []) rest refl,
        slice_to-append 5 (a ∷ b ∷ c ∷ d ∷ e ∷ []) rest refl,
      )
      (_, refl)
split_dependency_total [] true h = absurd (omega (arith, h refl))
split_dependency_total (_ ∷ []) true h = absurd (omega (arith, h refl))
split_dependency_total (_ ∷ _ ∷ []) true h = absurd (omega (arith, h refl))
split_dependency_total (_ ∷ _ ∷ _ ∷ []) true h = absurd (omega (arith, h refl))
split_dependency_total (_ ∷ _ ∷ _ ∷ _ ∷ []) true h = absurd (omega (arith, h refl))

split_dependency_cases :
    (actual : List ℕ) (b : Bool)
    → (((b ≡ true) × (length actual < 5)) × (split_dependency actual b ≡ panic))
      ⊎ ((((b ≡ true) × (length actual < 5)) → ⊥)
          × ((r : List ℕ × Option StreamDependency) × (split_dependency actual b ≡ value r)))
split_dependency_cases actual false =
    inr (ground arith, split_dependency_total actual false (ground arith))
split_dependency_cases actual true = elim (Bool-cases (ltb (length actual) 5)) [
  | inl short ↦ inl ((refl, ltb→lt _ _ short), split_dependency_panics actual (ltb→lt _ _ short))
  | inr long ↦ inr (ground arith, split_dependency_total actual true (ground arith))
]

-- A HEADERS frame of `payload` octets on a stream.
abbrev pub on_wire : ℕ → ℕ → List ℕ → RawFrame
on_wire flags stream_id payload = raw_from (wire (length payload, 0x1, flags, stream_id) payload)

from_raw-on_wire :
    (flags stream_id : ℕ) (payload : List ℕ)
    → IsByte flags
    → IsU31 stream_id
    → 0 < stream_id
    → IsU24 (length payload)
    → from_raw (on_wire flags stream_id payload) ≡ from_payload flags stream_id payload
unfolding from_raw
from_raw-on_wire flags stream_id payload hf hs pos hl =
    let head : FrameHeader = (length payload, 0x1, flags, stream_id) in
    rw (header-wire head payload (omega arith), payload-wire head payload, ==_refl (length payload))
      (ground arith)

-- A HEADERS frame on a stream, its identifier of 31 bits and not 0, its flags an octet, its length
-- below 2 ^ 24 and that of its payload: where the padding, if any, is valid, parsing it panics exactly
-- if the PRIORITY flag is set and less than the 5 octets of a dependency are left without the padding.
pub from_raw_panics :
    (flags stream_id : ℕ) (payload actual : List ℕ) (pad_len : Option ℕ)
    → IsByte flags
    → IsU31 stream_id
    → 0 < stream_id
    → IsU24 (length payload)
    → strip_padding payload (has_flag flags (bitmask padded)) ≡ value (some (actual, pad_len))
    → (from_raw (on_wire flags stream_id payload) ≡ panic)
      ↔ ((has_flag flags (bitmask priority) ≡ true) × (length actual < 5))
unfolding from_payload
from_raw_panics flags stream_id payload actual pad_len hf hs pos hl stripped =
    rw (from_raw-on_wire flags stream_id payload hf hs pos hl, stripped)
      (elim (split_dependency_cases actual (has_flag flags (bitmask priority))) [
        | inl (short, panics) ↦ rw panics ((λ _. short), λ _. refl)
        | inr (not_short, (r, total)) ↦
            rw total ((λ e. ground arith), λ short. absurd (not_short short))
      ])
