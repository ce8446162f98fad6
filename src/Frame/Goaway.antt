-- ===== src/Frame/Goaway.antt =====
-- http/frame/goaway.rs: the GOAWAY frame.
pub mod RoundTrip
use solicit.Base.{
  ℕ, ◌+◌, ◌%◌, ◌^◌, List, Option, none, some, length, ltb, ◌==◌, not, if◌then◌else◌, Exec, value,
  ◌>>=◌, slice_from,
}
use solicit.Http.Error.{ErrorCode, from_u32, into_u32}
use solicit.Frame.Header.{FrameHeader, unpack_octets_4, parse_stream_id}
use solicit.Frame.Builder.{Cursor, write_u32, write_header, write_all}
use solicit.Frame.Raw.{RawFrame}
use solicit.Frame.Raw

abbrev pub goaway_min_frame_len : ℕ
goaway_min_frame_len = 8

abbrev pub goaway_frame_type : ℕ
goaway_frame_type = 0x7

pub record GoawayFrame : Type 0 where
  pub last_stream_id : ℕ
  pub raw_error_code : ℕ
  pub debug_data : Option (List ℕ)
  pub flags : ℕ

unfoldable pub new : ℕ → ErrorCode → GoawayFrame
new last_stream_id error_code = record {
  last_stream_id = last_stream_id;
  raw_error_code = into_u32 error_code;
  debug_data = none;
  flags = 0;
}

unfoldable pub with_debug_data : ℕ → ℕ → List ℕ → GoawayFrame
with_debug_data last_stream_id raw_error debug_data = record {
  last_stream_id = last_stream_id;
  raw_error_code = raw_error;
  debug_data = some debug_data;
  flags = 0;
}

unfoldable pub error_code : GoawayFrame → ErrorCode
error_code f = from_u32 f.raw_error_code

abbrev pub debug_len : Option (List ℕ) → ℕ
debug_len none = 0
debug_len (some d) = length d % 2 ^ 32

-- The sum and the cast wrap at 2 ^ 32.
unfoldable pub payload_len : GoawayFrame → ℕ
payload_len f = (goaway_min_frame_len + debug_len f.debug_data) % 2 ^ 32

-- The debug data behind the two words, if the header's length says that there is any.
unfoldable pub read_debug_data : ℕ → List ℕ → Exec (Option (List ℕ))
read_debug_data len payload =
    if ltb goaway_min_frame_len len
    then (slice_from payload goaway_min_frame_len >>= λ d. value (some d))
    else value none

unfoldable pub from_raw : RawFrame → Exec (Option GoawayFrame)
from_raw raw_frame = do
  (payload_len, frame_type, flags, stream_id) ← Raw.header raw_frame
  let parsed = (do
    payload ← Raw.payload raw_frame
    last_stream_id ← parse_stream_id payload
    error ← unpack_octets_4 payload 4
    debug_data ← read_debug_data payload_len payload
    value (
        some (record {
          last_stream_id = last_stream_id;
          raw_error_code = error;
          debug_data = debug_data;
          flags = flags;
        })))
  if ltb payload_len goaway_min_frame_len
      then value none
      else (if not (frame_type == goaway_frame_type)
          then value none
          else (if not (stream_id == 0x0) then value none else parsed))

unfoldable pub get_stream_id : GoawayFrame → ℕ
get_stream_id f = 0

unfoldable pub get_header : GoawayFrame → FrameHeader
get_header f = (payload_len f, goaway_frame_type, f.flags, 0)

abbrev pub write_debug_data : Option (List ℕ) → Cursor → Cursor
write_debug_data none b = b
write_debug_data (some buf) b = write_all buf b

unfoldable pub serialize_into : GoawayFrame → Cursor → Exec Cursor
unfolding get_header
serialize_into f b = value (
    write_debug_data f.debug_data
      (write_u32 f.raw_error_code (write_u32 f.last_stream_id (write_header (get_header f) b))))
