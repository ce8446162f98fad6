-- ===== src/Frame/Headers/RoundTrip.antt =====
-- http/frame/headers.rs: what a HEADERS frame serializes to, and that parsing gives it back.
use solicit.Base.{
  ◌⊎◌, ℕ, ◌+◌, ◌/◌, ◌^◌, ◌<◌, ◌≡◌, refl, ◌∙◌, arith, inl, inr, List, [], ◌++◌, Bool, true, false,
  not, Option, none, some, length, if◌then◌else◌, ◌==◌, IsByte, IsU31, value, ◌>>=◌, Bool-cases,
  length-append, octet, octet_lem, join_4, join_4_lem, clear_top_bit, clear_top_bit_lem, bit_or,
  bit_and, append-nil, slice_from-append, slice_to-append,
}
use solicit.Base.Tables.{top_bit, set_top_bit, set_no_bit}
use solicit.Frame.Raw.{has_flag, raw_from, unwrap_or}
use solicit.Frame.Raw.Padding.{parse_padded_payload-pad}
use solicit.Frame.Wire.{
  wire, header-wire, payload-wire, at_end, writes, write_header-at_end, write_all-at_end,
}
use solicit.Frame.Data.RoundTrip.{pad, length-pad, Padding}
use solicit.Frame.Headers.{
  HeadersFrame, StreamDependency, parse_dependency, serialize_dependency, padded, priority, bitmask,
  payload_len, strip_padding, split_dependency, from_raw, get_header, write_dependency,
  serialize_into,
}

-- The first octet carries the exclusive bit above the top seven bits of the identifier.
first_octet :
    (id : ℕ) (e : Bool)
    → IsU31 id
    → bit_or (octet id 24) (if e then 128 else 0) ≡ id / 2 ^ 24 + (if e then 128 else 0)
first_octet id true h =
    set_top_bit (octet id 24) (omega (arith, octet_lem id 24)) ∙ omega (arith, octet_lem id 24)
first_octet id false h =
    set_no_bit (octet id 24) (omega (arith, octet_lem id 24)) ∙ omega (arith, octet_lem id 24)

exclusive_bit :
    (hi : ℕ) (e : Bool) → hi < 128 → not (bit_and (hi + (if e then 128 else 0)) 0x80 == 0) ≡ e
exclusive_bit hi true h = ground (arith, top_bit (hi + 128) (omega arith))
exclusive_bit hi false h = ground (arith, top_bit (hi + 0) (omega arith))

identifier_below :
    (id top : ℕ)
    → IsU31 id
    → (top ≡ 0) ⊎ (top ≡ 128)
    → clear_top_bit (join_4 (id / 2 ^ 24 + top) (octet id 16) (octet id 8) (octet id 0)) ≡ id
identifier_below id top h t =
    clear_top_bit_lem _
    ∙ rw
        (join_4_lem (id / 2 ^ 24 + top) (octet id 16) (octet id 8) (octet id 0) (omega arith)
          (omega (arith, octet_lem id 16)) (omega (arith, octet_lem id 8))
          (omega (arith, octet_lem id 0)))
        (omega (arith, octet_lem id 16, octet_lem id 8, octet_lem id 0))

identifier :
    (id : ℕ) (e : Bool)
    → IsU31 id
    → clear_top_bit
        (join_4 (id / 2 ^ 24 + (if e then 128 else 0)) (octet id 16) (octet id 8) (octet id 0))
      ≡ id
identifier id true h = identifier_below id 128 h (inr refl)
identifier id false h = identifier_below id 0 h (inl refl)

-- The 5 octets of a stream dependency whose identifier has 31 bits parse back to it: identifier,
-- weight and exclusive bit.
pub parse_dependency-serialize_dependency :
    (dep : StreamDependency)
    → IsU31 dep.stream_id
    → parse_dependency (serialize_dependency dep) ≡ value dep
unfolding parse_dependency serialize_dependency
parse_dependency-serialize_dependency dep h = rw (
  first_octet dep.stream_id dep.is_exclusive h,
  identifier dep.stream_id dep.is_exclusive h,
  exclusive_bit (dep.stream_id / 2 ^ 24) dep.is_exclusive (omega arith),
)

-- The dependency octets in front of the fragment.
abbrev pub prefix : Bool → Option StreamDependency → List ℕ
prefix true (some dep) = serialize_dependency dep
prefix _ _ = []

abbrev pub Dependency : Bool → Option StreamDependency → Type 0
Dependency true (some dep) = IsU31 dep.stream_id
Dependency false none = Unit {0}
Dependency _ _ = ⊥

-- The payload octets of the frame.
abbrev pub body : HeadersFrame → List ℕ
body f =
    pad (has_flag f.flags (bitmask padded)) (unwrap_or f.padding_len 0)
      (prefix (has_flag f.flags (bitmask priority)) f.stream_dep ++ f.header_fragment)

-- A frame that a HEADERS frame on the wire can stand for.
pub record IsWellFormed (f : HeadersFrame) : Type 0 where
  pub on_stream : 0 < f.stream_id
  pub id_fits : IsU31 f.stream_id
  pub flags_fit : IsByte f.flags
  pub fits : length (body f) < 2 ^ 24
  pub padding : Padding (has_flag f.flags (bitmask padded)) f.padding_len
  pub dependency : Dependency (has_flag f.flags (bitmask priority)) f.stream_dep

write_dependency-at_end :
    (b : Bool) (d : Option StreamDependency) (buf : List ℕ)
    → Dependency b d
    → write_dependency b d (at_end buf) ≡ value (at_end (buf ++ prefix b d))
unfolding write_dependency
write_dependency-at_end true (some dep) buf h = rw write_all-at_end
write_dependency-at_end true none buf h = absurd h
write_dependency-at_end false (some dep) buf h = absurd h
write_dependency-at_end false none buf h = rw append-nil

-- `serialize_into` does not panic, and appends the header octets and the payload octets.
pub serialize_into-wire :
    (f : HeadersFrame) (buf : List ℕ)
    → Dependency (has_flag f.flags (bitmask priority)) f.stream_dep
    → serialize_into f (at_end buf) ≡ value (at_end (buf ++ wire (get_header f) (body f)))
unfolding serialize_into
serialize_into-wire f buf d =
    let front : List ℕ = prefix (has_flag f.flags 0x20) f.stream_dep in
    elim (Bool-cases (has_flag f.flags 0x8)) [
      | inl p ↦
          rw
            (
              p,
              write_header-at_end,
              write_all-at_end,
              write_dependency-at_end (has_flag f.flags 0x20) f.stream_dep _ d,
            )
            (simp writes)
      | inr p ↦
          rw
            (
              p,
              write_header-at_end,
              write_dependency-at_end (has_flag f.flags 0x20) f.stream_dep _ d,
            )
            (simp writes)
    ]

length-prefix :
    (b : Bool) (d : Option StreamDependency)
    → Dependency b d
    → length (prefix b d) ≡ (if b then 5 else 0)
unfolding serialize_dependency
length-prefix true (some dep) h = refl
length-prefix true none h = absurd h
length-prefix false (some dep) h = absurd h
length-prefix false none h = refl

-- The length in the header is the length of the payload.
pub payload_len-body : (f : HeadersFrame) → IsWellFormed f → payload_len f ≡ length (body f)
unfolding payload_len
payload_len-body f w =
    let front = prefix (has_flag f.flags 0x20) f.stream_dep in
    ground (
      arith,
      length-pad (has_flag f.flags 0x8) (unwrap_or f.padding_len 0) (front ++ f.header_fragment),
      length-append front f.header_fragment,
      length-prefix (has_flag f.flags 0x20) f.stream_dep w.dependency,
    )

strip_padding-pad :
    (b : Bool) (padding_len : Option ℕ) (content : List ℕ)
    → Padding b padding_len
    → strip_padding (pad b (unwrap_or padding_len 0) content) b
      ≡ value (some (content, padding_len))
unfolding strip_padding
strip_padding-pad true (some n) content h = rw (parse_padded_payload-pad content n h)
strip_padding-pad true none content h = absurd h
strip_padding-pad false (some n) content h = absurd h
strip_padding-pad false none content h = refl

split_dependency-prefix :
    (b : Bool) (d : Option StreamDependency) (fragment : List ℕ)
    → Dependency b d
    → split_dependency (prefix b d ++ fragment) b ≡ value (fragment, d)
unfolding split_dependency
split_dependency-prefix true (some dep) fragment h = rw (
  slice_from-append 5 (serialize_dependency dep) fragment (unfold serialize_dependency in refl),
  slice_to-append 5 (serialize_dependency dep) fragment (unfold serialize_dependency in refl),
  parse_dependency-serialize_dependency dep h,
)
split_dependency-prefix true none fragment h = absurd h
split_dependency-prefix false (some dep) fragment h = absurd h
split_dependency-prefix false none fragment h = refl

pub from_raw-body :
    (f : HeadersFrame)
    → IsWellFormed f
    → from_raw (raw_from (wire (get_header f) (body f))) ≡ value (some f)
unfolding from_raw get_header
from_raw-body f w =
    let len = payload_len-body f w in
    rw
      (
        header-wire (get_header f) (body f) (omega (arith, len)),
        payload-wire (get_header f) (body f),
        strip_padding-pad (has_flag f.flags 0x8) f.padding_len _ w.padding,
        split_dependency-prefix (has_flag f.flags 0x20) f.stream_dep f.header_fragment w.dependency,
      )
      (ground (arith, len))

-- Parsing what was serialized gives the frame back: fragment, dependency, padding and flags.
pub from_raw-serialize_into :
    (f : HeadersFrame)
    → IsWellFormed f
    → (serialize_into f (at_end []) >>= λ c. from_raw (raw_from c.buffer)) ≡ value (some f)
from_raw-serialize_into f w = rw (serialize_into-wire f [] w.dependency) (from_raw-body f w)
