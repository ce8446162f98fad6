-- ===== src/Frame/RstStream/RoundTrip.antt =====
-- http/frame/rst_stream.rs: what a RST_STREAM frame serializes to, and that parsing gives it back.
use solicit.Base.{
  ℕ, ◌<◌, ◌≡◌, arith, List, [], ◌++◌, some, IsByte, IsU32, IsU31, value, ◌>>=◌, append_assoc,
}
use solicit.Frame.Raw.{raw_from}
use solicit.Frame.Wire.{
  wire, header-wire, payload-wire, at_end, write_header-at_end, write_u32-at_end, u32_octets,
  unpack-u32_octets,
}
use solicit.Frame.RstStream.{RstStreamFrame, from_raw, get_header, serialize_into}

-- A frame that a RST_STREAM frame on the wire can stand for.
pub record IsWellFormed (f : RstStreamFrame) : Type 0 where
  pub on_stream : 0 < f.stream_id
  pub id_fits : IsU31 f.stream_id
  pub flags_fit : IsByte f.flags
  pub code_fits : IsU32 f.raw_error_code

-- `serialize_into` appends the header octets and the error code.
pub serialize_into-wire :
    (f : RstStreamFrame) (buf : List ℕ)
    → serialize_into f (at_end buf)
      ≡ value (at_end (buf ++ wire (get_header f) (u32_octets f.raw_error_code)))
unfolding serialize_into
serialize_into-wire f buf = rw (write_header-at_end, write_u32-at_end, append_assoc)

pub from_raw-body :
    (f : RstStreamFrame)
    → IsWellFormed f
    → from_raw (raw_from (wire (get_header f) (u32_octets f.raw_error_code))) ≡ value (some f)
unfolding from_raw get_header
from_raw-body f w =
    rw
      (
        header-wire (get_header f) (u32_octets f.raw_error_code) (omega arith),
        payload-wire (get_header f) (u32_octets f.raw_error_code),
        unpack-u32_octets f.raw_error_code [] w.code_fits,
      )
      (ground arith)

-- Parsing what was serialized gives the frame back.
pub from_raw-serialize_into :
    (f : RstStreamFrame)
    → IsWellFormed f
    → (serialize_into f (at_end []) >>= λ c. from_raw (raw_from c.buffer)) ≡ value (some f)
from_raw-serialize_into f w = rw (serialize_into-wire f []) (from_raw-body f w)
