-- ===== src/Frame/Goaway/RoundTrip.antt =====
-- http/frame/goaway.rs: what a GOAWAY frame serializes to, and that parsing gives it back.
use solicit.Base.{
  ℕ, ◌^◌, ◌<◌, ◌≡◌, ◌≢◌, refl, arith, List, [], ◌∷◌, ◌++◌, Option, none, some, length, IsByte,
  IsU32, IsU31, value, ◌>>=◌, join_4-octet, append_assoc, append-nil, clear_top_bit_small,
  slice_from-append, length-append, ap, lt→ltb, le→not_ltb,
}
use solicit.Frame.Header.{parse_stream_id, unpack_octets_4}
use solicit.Frame.Raw.{raw_from}
use solicit.Frame.Wire.{
  wire, header-wire, payload-wire, at_end, write_header-at_end, write_all-at_end, write_u32-at_end,
  u32_octets,
}
use solicit.Frame.Goaway.{
  GoawayFrame, from_raw, get_header, payload_len, read_debug_data, write_debug_data, serialize_into,
}

abbrev pub debug_octets : Option (List ℕ) → List ℕ
debug_octets none = []
debug_octets (some d) = d

-- The payload octets of the frame.
abbrev pub body : GoawayFrame → List ℕ
body f = u32_octets f.last_stream_id ++ (u32_octets f.raw_error_code ++ debug_octets f.debug_data)

-- A frame that a GOAWAY frame on the wire can stand for. Debug data, if given, is not empty: the
-- wire does not tell empty debug data from none.
pub record IsWellFormed (f : GoawayFrame) : Type 0 where
  pub last_fits : IsU31 f.last_stream_id
  pub code_fits : IsU32 f.raw_error_code
  pub flags_fit : IsByte f.flags
  pub fits : length (body f) < 2 ^ 24
  pub some_data : f.debug_data ≢ some []

write_debug_data-at_end :
    (d : Option (List ℕ)) (buf : List ℕ)
    → write_debug_data d (at_end buf) ≡ at_end (buf ++ debug_octets d)
write_debug_data-at_end none buf = rw append-nil
write_debug_data-at_end (some d) buf = write_all-at_end d buf

-- `serialize_into` appends the header octets, the two words and the debug data.
pub serialize_into-wire :
    (f : GoawayFrame) (buf : List ℕ)
    → serialize_into f (at_end buf) ≡ value (at_end (buf ++ wire (get_header f) (body f)))
unfolding serialize_into
serialize_into-wire f buf =
    rw
      (
        write_header-at_end,
        write_u32-at_end f.last_stream_id,
        write_u32-at_end f.raw_error_code,
        write_debug_data-at_end,
      )
      (simp append_assoc)

pub payload_len-body : (f : GoawayFrame) → IsWellFormed f → payload_len f ≡ length (body f)
unfolding payload_len
payload_len-body f w = ground arith

parse_words :
    (last code : ℕ) (rest : List ℕ)
    → IsU31 last
    → IsU32 code
    → (parse_stream_id (u32_octets last ++ (u32_octets code ++ rest)) ≡ value last)
      × (unpack_octets_4 (u32_octets last ++ (u32_octets code ++ rest)) 4 ≡ value code)
unfolding parse_stream_id unpack_octets_4
parse_words last code rest hl hc = (
  rw (join_4-octet last (omega arith), clear_top_bit_small last hl),
  ap value (join_4-octet code hc),
)

read_debug_data-octets :
    (front : List ℕ) (d : Option (List ℕ))
    → length front ≡ 8
    → d ≢ some []
    → read_debug_data (length (front ++ debug_octets d)) (front ++ debug_octets d) ≡ value d
unfolding read_debug_data
read_debug_data-octets front none e h =
    rw (le→not_ltb 8 (length (front ++ [])) (omega (arith, length-append front [])))
read_debug_data-octets front (some []) e h = absurd (h refl)
read_debug_data-octets front (some (x ∷ d)) e h = rw (
  lt→ltb 8 (length (front ++ (x ∷ d))) (omega (arith, length-append front (x ∷ d))),
  slice_from-append 8 front (x ∷ d) e,
)

pub from_raw-body :
    (f : GoawayFrame)
    → IsWellFormed f
    → from_raw (raw_from (wire (get_header f) (body f))) ≡ value (some f)
unfolding from_raw get_header
from_raw-body f w =
    let len = payload_len-body f w in
    let words =
      parse_words f.last_stream_id f.raw_error_code (debug_octets f.debug_data) w.last_fits
        w.code_fits in
    let front = u32_octets f.last_stream_id ++ u32_octets f.raw_error_code in
    rw
      (
        header-wire (get_header f) (body f) (omega (arith, len)),
        payload-wire (get_header f) (body f),
        words.0,
        words.1,
        len,
        read_debug_data-octets front f.debug_data refl w.some_data,
      )
      (ground (arith, len))

-- Parsing what was serialized gives the frame back, with its debug data.
pub from_raw-serialize_into :
    (f : GoawayFrame)
    → IsWellFormed f
    → (serialize_into f (at_end []) >>= λ c. from_raw (raw_from c.buffer)) ≡ value (some f)
from_raw-serialize_into f w = rw (serialize_into-wire f []) (from_raw-body f w)
