-- ===== src/Frame/WindowUpdate/RoundTrip.antt =====
-- http/frame/window_update.rs: what a WINDOW_UPDATE frame serializes to, and its parsing.
use solicit.Base.{
  ℕ, ◌≡◌, arith, List, [], ◌++◌, some, IsByte, IsU31, value, ◌>>=◌, append_assoc,
  clear_top_bit_small,
}
use solicit.Frame.Raw.{raw_from}
use solicit.Frame.Wire.{
  wire, header-wire, payload-wire, at_end, write_header-at_end, write_u32-at_end, u32_octets,
  unpack-u32_octets,
}
use solicit.Frame.WindowUpdate.{WindowUpdateFrame, from_raw, get_header, serialize_into}

-- A frame that a WINDOW_UPDATE frame on the wire can stand for: the increment has 31 bits.
pub record IsWellFormed (f : WindowUpdateFrame) : Type 0 where
  pub id_fits : IsU31 f.stream_id
  pub flags_fit : IsByte f.flags
  pub increment_fits : IsU31 f.increment

-- `serialize_into` appends the header octets and the increment.
pub serialize_into-wire :
    (f : WindowUpdateFrame) (buf : List ℕ)
    → serialize_into f (at_end buf)
      ≡ value (at_end (buf ++ wire (get_header f) (u32_octets f.increment)))
unfolding serialize_into
serialize_into-wire f buf = rw (write_header-at_end, write_u32-at_end, append_assoc)

pub from_raw-body :
    (f : WindowUpdateFrame)
    → IsWellFormed f
    → from_raw (raw_from (wire (get_header f) (u32_octets f.increment))) ≡ value (some f)
unfolding from_raw get_header
from_raw-body f w =
    rw
      (
        header-wire (get_header f) (u32_octets f.increment) (omega arith),
        payload-wire (get_header f) (u32_octets f.increment),
        unpack-u32_octets f.increment [] (omega arith),
        clear_top_bit_small f.increment w.increment_fits,
      )
      (ground arith)

-- Parsing what was serialized gives the frame back.
pub from_raw-serialize_into :
    (f : WindowUpdateFrame)
    → IsWellFormed f
    → (serialize_into f (at_end []) >>= λ c. from_raw (raw_from c.buffer)) ≡ value (some f)
from_raw-serialize_into f w = rw (serialize_into-wire f []) (from_raw-body f w)
