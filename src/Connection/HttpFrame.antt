-- ===== src/Connection/HttpFrame.antt =====
-- http/connection.rs: frames of every type, and their recognition.
pub mod RoundTrip
use solicit.Base.{ℕ, List, Option, none, some, ◌==◌, if◌then◌else◌, Exec, value, ◌>>=◌}
use solicit.Http.Error.{HttpError, HttpResult, success, failure, invalid_frame}
use solicit.Frame.Builder.{Cursor}
use solicit.Frame.Raw.{RawFrame}
use solicit.Frame.Raw
use solicit.Frame.Data
use solicit.Frame.Headers
use solicit.Frame.RstStream
use solicit.Frame.Settings
use solicit.Frame.Goaway
use solicit.Frame.WindowUpdate

pub data HttpFrame : Type 0 where
  data_frame : Data.DataFrame → HttpFrame
  headers_frame : Headers.HeadersFrame → HttpFrame
  rst_stream_frame : RstStream.RstStreamFrame → HttpFrame
  settings_frame : Settings.SettingsFrame → HttpFrame
  goaway_frame : Goaway.GoawayFrame → HttpFrame
  window_update_frame : WindowUpdate.WindowUpdateFrame → HttpFrame
  unknown_frame : RawFrame → HttpFrame

-- `FrameIR` of every type of frame.
unfoldable pub serialize_into : HttpFrame → Cursor → Exec Cursor
serialize_into (data_frame f) b = Data.serialize_into f b
serialize_into (headers_frame f) b = Headers.serialize_into f b
serialize_into (rst_stream_frame f) b = RstStream.serialize_into f b
serialize_into (settings_frame f) b = Settings.serialize_into f b
serialize_into (goaway_frame f) b = Goaway.serialize_into f b
serialize_into (window_update_frame f) b = WindowUpdate.serialize_into f b
serialize_into (unknown_frame raw) b = Raw.serialize_into raw b

-- `parse_frame`, with the variant that wraps its result.
unfoldable pub parse_frame :
    {F : Type 0} → (F → HttpFrame) → Exec (Option F) → Exec (HttpResult HttpFrame)
parse_frame wrap parsed = do
  r ← parsed
  value (elim r [ none ↦ failure invalid_frame | some f ↦ success (wrap f) ])

unfoldable pub from_raw : RawFrame → Exec (HttpResult HttpFrame)
unfolding parse_frame
from_raw raw = do
  (len, frame_type, flags, stream_id) ← Raw.header raw
  if frame_type == 0x0
      then parse_frame data_frame (Data.from_raw raw)
      else (if frame_type == 0x1
          then parse_frame headers_frame (Headers.from_raw raw)
          else (if frame_type == 0x3
              then parse_frame rst_stream_frame (RstStream.from_raw raw)
              else (if frame_type == 0x4
                  then parse_frame settings_frame (Settings.from_raw raw)
                  else (if frame_type == 0x7
                      then parse_frame goaway_frame (Goaway.from_raw raw)
                      else (if frame_type == 0x8
                          then parse_frame window_update_frame (WindowUpdate.from_raw raw)
                          else value (success (unknown_frame raw)))))))
