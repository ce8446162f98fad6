-- ===== src/Frame/RstStream.antt =====
-- http/frame/rst_stream.rs: the RST_STREAM frame.
pub mod RoundTrip
use solicit.Base.{ℕ, Option, none, some, ◌==◌, not, if◌then◌else◌, Exec, value, ◌>>=◌}
use solicit.Http.Error.{ErrorCode, from_u32, into_u32}
use solicit.Frame.Header.{FrameHeader, unpack_octets_4}
use solicit.Frame.Builder.{Cursor, write_u32, write_header}
use solicit.Frame.Raw.{RawFrame}
use solicit.Frame.Raw

abbrev pub rst_stream_frame_len : ℕ
rst_stream_frame_len = 4

abbrev pub rst_stream_frame_type : ℕ
rst_stream_frame_type = 0x3

pub record RstStreamFrame : Type 0 where
  pub raw_error_code : ℕ
  pub stream_id : ℕ
  pub flags : ℕ

unfoldable pub new : ℕ → ErrorCode → RstStreamFrame
new stream_id error_code = record {
  raw_error_code = into_u32 error_code;
  stream_id = stream_id;
  flags = 0;
}

unfoldable pub with_raw_error_code : ℕ → ℕ → RstStreamFrame
with_raw_error_code stream_id raw_error_code = record {
  raw_error_code = raw_error_code;
  stream_id = stream_id;
  flags = 0;
}

unfoldable pub error_code : RstStreamFrame → ErrorCode
error_code f = from_u32 f.raw_error_code

unfoldable pub from_raw : RawFrame → Exec (Option RstStreamFrame)
from_raw raw_frame = do
  (payload_len, frame_type, flags, stream_id) ← Raw.header raw_frame
  let parsed = (Raw.payload raw_frame >>= λ payload. unpack_octets_4 payload 0)
  if not (payload_len == rst_stream_frame_len)
      then value none
      else (if not (frame_type == rst_stream_frame_type)
          then value none
          else (if stream_id == 0x0
              then value none
              else (parsed >>= λ error. value (
                  some (record { raw_error_code = error; stream_id = stream_id; flags = flags })))))

unfoldable pub get_stream_id : RstStreamFrame → ℕ
get_stream_id f = f.stream_id

unfoldable pub get_header : RstStreamFrame → FrameHeader
get_header f = (rst_stream_frame_len, rst_stream_frame_type, f.flags, f.stream_id)

unfoldable pub serialize_into : RstStreamFrame → Cursor → Exec Cursor
unfolding get_header
serialize_into f b = value (write_u32 f.raw_error_code (write_header (get_header f) b))
