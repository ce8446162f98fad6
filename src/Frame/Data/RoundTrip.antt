-- ===== src/Frame/Data/RoundTrip.antt =====
-- http/frame/data.rs: what a DATA frame serializes to, and that parsing gives it back.
use solicit.Base.{
  ℕ, ◌+◌, ◌^◌, ◌<◌, ◌≡◌, refl, arith, inl, inr, List, [], ◌∷◌, ◌++◌, Bool, true, false, Option,
  none, some, length, replicate, if◌then◌else◌, IsByte, IsU31, value, ◌>>=◌, Bool-cases,
  length-append, length-replicate,
}
use solicit.Frame.Raw.{has_flag, raw_from, unwrap_or}
use solicit.Frame.Raw.Padding.{parse_padded_payload-pad}
use solicit.Frame.Wire.{wire, header-wire, payload-wire, at_end, writes}
use solicit.Frame.Data.{
  DataFrame, padded, bitmask, payload_len, parse_payload, from_raw, get_header, serialize_into,
}

-- The payload octets of the frame.
abbrev pub pad : Bool → ℕ → List ℕ → List ℕ
pad true pad_len content = pad_len ∷ (content ++ replicate pad_len 0)
pad false pad_len content = content

abbrev pub body : DataFrame → List ℕ
body f = pad (has_flag f.flags (bitmask padded)) (unwrap_or f.padding_len 0) f.content

-- `serialize_into` appends the header octets and the payload octets to what was written before.
pub serialize_into-wire :
    (f : DataFrame) (buf : List ℕ)
    → serialize_into f (at_end buf) ≡ value (at_end (buf ++ wire (get_header f) (body f)))
unfolding serialize_into
serialize_into-wire f buf = elim (Bool-cases (has_flag f.flags 0x8)) [
  | inl p ↦ rw p (simp writes)
  | inr p ↦ rw p (simp writes)
]

abbrev pub Padding : Bool → Option ℕ → Type 0
Padding true (some pad_len) = IsByte pad_len
Padding false none = Unit {0}
Padding _ _ = ⊥

-- A frame that a DATA frame on the wire can stand for.
pub record IsWellFormed (f : DataFrame) : Type 0 where
  pub on_stream : 0 < f.stream_id
  pub id_fits : IsU31 f.stream_id
  pub flags_fit : IsByte f.flags
  pub fits : length (body f) < 2 ^ 24
  pub padding : Padding (has_flag f.flags (bitmask padded)) f.padding_len

pub length-pad :
    (b : Bool) (pad_len : ℕ) (content : List ℕ)
    → length (pad b pad_len content) ≡ (if b then 1 + length content + pad_len else length content)
length-pad false pad_len content = refl
length-pad true pad_len content =
    omega (arith, length-append content (replicate pad_len 0), length-replicate {A = ℕ} pad_len 0)

-- The length in the header is the length of the payload.
pub payload_len-body : (f : DataFrame) → IsWellFormed f → payload_len f ≡ length (body f)
unfolding payload_len
payload_len-body f w =
    ground (arith, length-pad (has_flag f.flags 0x8) (unwrap_or f.padding_len 0) f.content)

parse_payload-pad :
    (b : Bool) (padding_len : Option ℕ) (content : List ℕ)
    → Padding b padding_len
    → parse_payload (pad b (unwrap_or padding_len 0) content) b
      ≡ value (some (content, padding_len))
unfolding parse_payload
parse_payload-pad true (some n) content h = rw (parse_padded_payload-pad content n h)
parse_payload-pad true none content h = absurd h
parse_payload-pad false (some n) content h = absurd h
parse_payload-pad false none content h = refl

pub from_raw-body :
    (f : DataFrame)
    → IsWellFormed f
    → from_raw (raw_from (wire (get_header f) (body f))) ≡ value (some f)
unfolding from_raw get_header
from_raw-body f w =
    let len = payload_len-body f w in
    rw
      (
        header-wire (get_header f) (body f) (omega (arith, len)),
        payload-wire (get_header f) (body f),
        parse_payload-pad (has_flag f.flags 0x8) f.padding_len f.content w.padding,
      )
      (ground (arith, len))

-- Parsing what was serialized gives the frame back, with its padding and flags.
pub from_raw-serialize_into :
    (f : DataFrame)
    → IsWellFormed f
    → (serialize_into f (at_end []) >>= λ c. from_raw (raw_from c.buffer)) ≡ value (some f)
from_raw-serialize_into f w = rw (serialize_into-wire f []) (from_raw-body f w)
