-- ===== src/Frame/Wire.antt =====
-- The wire format that the serializers and parsers of http/frame share: header octets, then payload.
use solicit.Base.{
  ℕ, zero, suc, ◌+◌, ◌-◌, ◌*◌, ◌/◌, ◌%◌, ◌^◌, ◌≤◌, ◌<◌, ◌≡◌, refl, sym, ap, ◌∙◌, arith, List, [],
  ◌∷◌, ◌++◌, length, take, drop, replicate, octet, octet_lem, join_3-octet, join_4-octet,
  join_3_lem, join_4_lem, clear_top_bit, clear_top_bit_small, clear_top_bit_lem, IsByte, IsU24,
  IsU31, IsU32, All, Exec, value, le→not_ltb, append-nil, append_assoc, take_all, drop_all,
  take-append, drop-append, length-append, length-replicate, join_3, join_4, ltb, if◌then◌else◌,
}
use solicit.Frame.Header.{FrameHeader, unpack_header, pack_header, unpack_octets_4}
use solicit.Frame.Builder.{
  Cursor, write_all, write_header, write_padding, write_u32, overwrite_header,
}
use solicit.Frame.Raw.{RawFrame, raw_from}
use solicit.Frame.Raw
use native.Mathlib.Nat.{zero-sub}

-- What a frame with this header and payload looks like on the wire.
abbrev pub wire : FrameHeader → List ℕ → List ℕ
wire h payload = pack_header h ++ payload

-- The header fields that the wire format has room for.
abbrev pub IsHeader : FrameHeader → Type 0
IsHeader (len, frame_type, flags, stream_id) =
    IsU24 len × IsByte frame_type × IsByte flags × IsU31 stream_id

-- Unpacking a packed header gives the header back, if its fields fit their widths.
pub unpack_header-pack_header :
    (h : FrameHeader) → IsHeader h → unpack_header (pack_header h) ≡ value h
unfolding unpack_header pack_header
unpack_header-pack_header (len, t, f, s) (hl, ht, hf, hs) =
    rw (join_3-octet len hl, join_4-octet s (omega arith), clear_top_bit_small s hs)

-- What a buffer of 9 octets unpacks to, as numbers.
pub unpack_header-octets :
    (a b c t f w x y z : ℕ)
    → All IsByte (a ∷ b ∷ c ∷ w ∷ x ∷ y ∷ z ∷ [])
    → unpack_header (a ∷ b ∷ c ∷ t ∷ f ∷ w ∷ x ∷ y ∷ z ∷ [])
      ≡ value (a * 65536 + b * 256 + c, t, f, w % 128 * 16777216 + x * 65536 + y * 256 + z)
unfolding unpack_header
unpack_header-octets a b c t f w x y z (ha, (hb, (hc, (hw, (hx, (hy, (hz, _))))))) =
    rw
      (
        join_3_lem a b c ha hb hc,
        clear_top_bit_lem (join_4 w x y z),
        join_4_lem w x y z hw hx hy hz,
      )
      (ap (λ (s : ℕ). value (a * 65536 + b * 256 + c, t, f, s)) (omega arith))

-- Packing those numbers gives the octets back, with the reserved top bit of the identifier cleared.
pub pack_header-octets :
    (a b c t f w x y z : ℕ)
    → All IsByte (a ∷ b ∷ c ∷ w ∷ x ∷ y ∷ z ∷ [])
    → pack_header (a * 65536 + b * 256 + c, t, f, w % 128 * 16777216 + x * 65536 + y * 256 + z)
      ≡ a ∷ b ∷ c ∷ t ∷ f ∷ (w % 128) ∷ x ∷ y ∷ z ∷ []
unfolding pack_header
pack_header-octets a b c t f w x y z (ha, (hb, (hc, (hw, (hx, (hy, (hz, _))))))) =
    let len : ℕ = a * 65536 + b * 256 + c in
    let id : ℕ = w % 128 * 16777216 + x * 65536 + y * 256 + z in
    let p0 : octet len 16 ≡ a = omega (arith, octet_lem len 16) in
    let p1 : octet len 8 ≡ b = omega (arith, octet_lem len 8) in
    let p2 : octet len 0 ≡ c = omega (arith, octet_lem len 0) in
    let q0 : octet id 24 ≡ w % 128 = omega (arith, octet_lem id 24) in
    let q1 : octet id 16 ≡ x = omega (arith, octet_lem id 16) in
    let q2 : octet id 8 ≡ y = omega (arith, octet_lem id 8) in
    let q3 : octet id 0 ≡ z = omega (arith, octet_lem id 0) in rw (p0, p1, p2, q0, q1, q2, q3)

module _ (h : FrameHeader) (payload : List ℕ) where
  pub take-wire : take 9 (wire h payload) ≡ pack_header h
  unfolding pack_header
  take-wire = refl

  pub length-wire : length (wire h payload) ≡ 9 + length payload
  unfolding pack_header
  length-wire = omega arith

  pub header-wire : IsHeader h → Raw.header (raw_from (wire h payload)) ≡ value h
  unfolding Raw.header
  header-wire fits =
      rw (le→not_ltb (length (wire h payload)) 9 (omega (arith, length-wire)), take-wire)
        (unpack_header-pack_header h fits)

  pub payload-wire : Raw.payload (raw_from (wire h payload)) ≡ value payload
  unfolding Raw.payload
  payload-wire =
      rw (le→not_ltb (length (wire h payload)) 9 (omega (arith, length-wire)))
        (unfold pack_header in refl)

-- The cursor after its whole buffer was written.
abbrev pub at_end : List ℕ → Cursor
at_end buffer = record { buffer = buffer; position = length buffer }

pub write_all-at_end : (bytes buf : List ℕ) → write_all bytes (at_end buf) ≡ at_end (buf ++ bytes)
unfolding write_all
write_all-at_end bytes buf =
    let none_missing : length buf - length buf ≡ 0 = omega arith in
    rw (
      take_all (length buf) buf (omega arith),
      none_missing,
      drop_all (length buf + length bytes) buf (omega arith),
      append-nil,
      length-append buf bytes,
    )

pub write_header-at_end :
    (h : FrameHeader) (buf : List ℕ) → write_header h (at_end buf) ≡ at_end (buf ++ pack_header h)
unfolding write_header
write_header-at_end h buf = write_all-at_end (pack_header h) buf

pub write_padding-at_end :
    (n : ℕ) (buf : List ℕ) → write_padding n (at_end buf) ≡ at_end (buf ++ replicate n 0)
unfolding write_padding
write_padding-at_end zero buf = rw append-nil
write_padding-at_end (suc n) buf =
    rw (write_all-at_end (0 ∷ []) buf, write_padding-at_end n (buf ++ (0 ∷ [])), append_assoc)

-- A 32-bit word in network order.
abbrev pub u32_octets : ℕ → List ℕ
u32_octets n = octet n 24 ∷ octet n 16 ∷ octet n 8 ∷ octet n 0 ∷ []

pub unpack-u32_octets :
    (n : ℕ) (rest : List ℕ) → IsU32 n → unpack_octets_4 (u32_octets n ++ rest) 0 ≡ value n
unfolding unpack_octets_4
unpack-u32_octets n rest h = ap value (join_4-octet n h)

pub write_u32-at_end :
    (n : ℕ) (buf : List ℕ) → write_u32 n (at_end buf) ≡ at_end (buf ++ u32_octets n)
unfolding write_u32
write_u32-at_end n buf = write_all-at_end _ buf

pub ruleset writes =
    (write_all-at_end, write_header-at_end, write_padding-at_end, write_u32-at_end, append_assoc)

-- `overwrite_header` replaces the 9 leading octets and nothing else, and leaves the cursor where it was.
pub overwrite_header-wire :
    (h h' : FrameHeader) (payload : List ℕ)
    → overwrite_header h' (at_end (wire h payload)) ≡ at_end (wire h' payload)
unfolding overwrite_header write_all pack_header
overwrite_header-wire h h' payload = rw zero-sub
