-- ===== src/Frame/WindowUpdate.antt =====
-- http/frame/window_update.rs: the WINDOW_UPDATE frame.
pub mod RoundTrip
use solicit.Base.{
  ℕ, Option, none, some, ◌==◌, not, if◌then◌else◌, Exec, value, ◌>>=◌, clear_top_bit,
}
use solicit.Frame.Header.{FrameHeader, unpack_octets_4}
use solicit.Frame.Builder.{Cursor, write_u32, write_header}
use solicit.Frame.Raw.{RawFrame}
use solicit.Frame.Raw

abbrev pub window_update_frame_len : ℕ
window_update_frame_len = 4

abbrev pub window_update_frame_type : ℕ
window_update_frame_type = 0x8

pub record WindowUpdateFrame : Type 0 where
  pub stream_id : ℕ
  pub increment : ℕ
  pub flags : ℕ

unfoldable pub for_connection : ℕ → WindowUpdateFrame
for_connection increment = record { stream_id = 0; increment = increment; flags = 0 }

unfoldable pub for_stream : ℕ → ℕ → WindowUpdateFrame
for_stream stream_id increment = record { stream_id = stream_id; increment = increment; flags = 0 }

unfoldable pub from_raw : RawFrame → Exec (Option WindowUpdateFrame)
from_raw raw_frame = do
  (payload_len, frame_type, flags, stream_id) ← Raw.header raw_frame
  let parsed = (Raw.payload raw_frame >>= λ payload. unpack_octets_4 payload 0)
  if not (payload_len == window_update_frame_len)
      then value none
      else (if not (frame_type == window_update_frame_type)
          then value none
          else (parsed >>= λ num. value (
              some
                (record { stream_id = stream_id; increment = clear_top_bit num; flags = flags }))))

unfoldable pub get_stream_id : WindowUpdateFrame → ℕ
get_stream_id f = f.stream_id

unfoldable pub get_header : WindowUpdateFrame → FrameHeader
unfolding get_stream_id
get_header f = (window_update_frame_len, window_update_frame_type, f.flags, get_stream_id f)

unfoldable pub serialize_into : WindowUpdateFrame → Cursor → Exec Cursor
unfolding get_header
serialize_into f b = value (write_u32 f.increment (write_header (get_header f) b))
