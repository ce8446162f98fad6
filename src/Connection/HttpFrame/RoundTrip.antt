-- ===== src/Connection/HttpFrame/RoundTrip.antt =====
-- http/connection.rs: frames of every type on the wire, and their recognition.
use solicit.Base.{ℕ, ◌≡◌, ◌≢◌, refl, arith, ap, sym, List, [], ◌++◌, length, some, value}
use solicit.Http.Error.{success}
use solicit.Frame.Header.{FrameHeader}
use solicit.Frame.Builder.{Cursor}
use solicit.Frame.Raw.{RawFrame, raw_from}
use solicit.Frame.Raw
use solicit.Frame.Raw.Parse.{parse-wire}
use solicit.Frame.Wire.{wire, IsHeader, header-wire, payload-wire, at_end, writes, u32_octets}
use solicit.Frame.Data
use solicit.Frame.Headers
use solicit.Frame.RstStream
use solicit.Frame.Settings
use solicit.Frame.Goaway
use solicit.Frame.WindowUpdate
use solicit.Connection.HttpFrame.{
  HttpFrame, data_frame, headers_frame, rst_stream_frame, settings_frame, goaway_frame,
  window_update_frame, unknown_frame, from_raw, serialize_into,
}

-- A raw frame whose header fits, agrees with its payload, and has none of the known types.
abbrev pub IsUnknown : RawFrame → Type 0
IsUnknown raw =
    (h : FrameHeader) × (payload : List ℕ) × (raw.raw_content ≡ wire h payload)
    × IsHeader h
    × (h.0 ≡ length payload)
    × (h.1 ≢ 0x0)
    × (h.1 ≢ 0x1)
    × (h.1 ≢ 0x3)
    × (h.1 ≢ 0x4)
    × (h.1 ≢ 0x7)
    × (h.1 ≢ 0x8)

-- A frame that has a place on the wire.
abbrev pub IsWellFormed : HttpFrame → Type 0
IsWellFormed (data_frame f) = Data.RoundTrip.IsWellFormed f
IsWellFormed (headers_frame f) = Headers.RoundTrip.IsWellFormed f
IsWellFormed (rst_stream_frame f) = RstStream.RoundTrip.IsWellFormed f
IsWellFormed (settings_frame f) = Settings.RoundTrip.IsWellFormed f
IsWellFormed (goaway_frame f) = Goaway.RoundTrip.IsWellFormed f
IsWellFormed (window_update_frame f) = WindowUpdate.RoundTrip.IsWellFormed f
IsWellFormed (unknown_frame raw) = IsUnknown raw

-- The header and the payload of the frame on the wire, and that they stand for the frame.
abbrev pub Parts : HttpFrame → Type 0
Parts f =
    (h : FrameHeader) × (payload : List ℕ) × IsHeader h
    × (h.0 ≡ length payload)
    × ((buf : List ℕ) → serialize_into f (at_end buf) ≡ value (at_end (buf ++ wire h payload)))
    × (from_raw (raw_from (wire h payload)) ≡ value (success f))

data_frame-Parts : (f : Data.DataFrame) → Data.RoundTrip.IsWellFormed f → Parts (data_frame f)
unfolding serialize_into from_raw Data.get_header
data_frame-Parts f w =
    let len : (Data.get_header f).0 ≡ length (Data.RoundTrip.body f) =
      Data.RoundTrip.payload_len-body f w in
    let fits : IsHeader (Data.get_header f) = omega (arith, len) in
    (
      Data.get_header f,
      Data.RoundTrip.body f,
      fits,
      len,
      (λ buf. Data.RoundTrip.serialize_into-wire f buf),
      rw
          (
            header-wire (Data.get_header f) (Data.RoundTrip.body f) fits,
            Data.RoundTrip.from_raw-body f w,
          )
          refl,
    )

headers_frame-Parts :
    (f : Headers.HeadersFrame) → Headers.RoundTrip.IsWellFormed f → Parts (headers_frame f)
unfolding serialize_into from_raw Headers.get_header
headers_frame-Parts f w =
    let len : (Headers.get_header f).0 ≡ length (Headers.RoundTrip.body f) =
      Headers.RoundTrip.payload_len-body f w in
    let fits : IsHeader (Headers.get_header f) = omega (arith, len) in
    (
      Headers.get_header f,
      Headers.RoundTrip.body f,
      fits,
      len,
      (λ buf. Headers.RoundTrip.serialize_into-wire f buf w.dependency),
      rw
          (
            header-wire (Headers.get_header f) (Headers.RoundTrip.body f) fits,
            Headers.RoundTrip.from_raw-body f w,
          )
          refl,
    )

rst_stream_frame-Parts :
    (f : RstStream.RstStreamFrame) → RstStream.RoundTrip.IsWellFormed f → Parts (rst_stream_frame f)
unfolding serialize_into from_raw RstStream.get_header
rst_stream_frame-Parts f w =
    let len : (RstStream.get_header f).0 ≡ length (u32_octets f.raw_error_code) = refl in
    let fits : IsHeader (RstStream.get_header f) = omega (arith, len) in
    (
      RstStream.get_header f,
      u32_octets f.raw_error_code,
      fits,
      len,
      (λ buf. RstStream.RoundTrip.serialize_into-wire f buf),
      rw
          (
            header-wire (RstStream.get_header f) (u32_octets f.raw_error_code) fits,
            RstStream.RoundTrip.from_raw-body f w,
          )
          refl,
    )

settings_frame-Parts :
    (f : Settings.SettingsFrame) → Settings.RoundTrip.IsWellFormed f → Parts (settings_frame f)
unfolding serialize_into from_raw Settings.get_header
settings_frame-Parts f w =
    let len : (Settings.get_header f).0 ≡ length (Settings.RoundTrip.body f) =
      Settings.RoundTrip.payload_len-body f w in
    let fits : IsHeader (Settings.get_header f) = omega (arith, len) in
    (
      Settings.get_header f,
      Settings.RoundTrip.body f,
      fits,
      len,
      (λ buf. Settings.RoundTrip.serialize_into-wire f buf),
      rw
          (
            header-wire (Settings.get_header f) (Settings.RoundTrip.body f) fits,
            Settings.RoundTrip.from_raw-body f w,
          )
          refl,
    )

goaway_frame-Parts :
    (f : Goaway.GoawayFrame) → Goaway.RoundTrip.IsWellFormed f → Parts (goaway_frame f)
unfolding serialize_into from_raw Goaway.get_header
goaway_frame-Parts f w =
    let len : (Goaway.get_header f).0 ≡ length (Goaway.RoundTrip.body f) =
      Goaway.RoundTrip.payload_len-body f w in
    let fits : IsHeader (Goaway.get_header f) = omega (arith, len) in
    (
      Goaway.get_header f,
      Goaway.RoundTrip.body f,
      fits,
      len,
      (λ buf. Goaway.RoundTrip.serialize_into-wire f buf),
      rw
          (
            header-wire (Goaway.get_header f) (Goaway.RoundTrip.body f) fits,
            Goaway.RoundTrip.from_raw-body f w,
          )
          refl,
    )

window_update_frame-Parts :
    (f : WindowUpdate.WindowUpdateFrame)
    → WindowUpdate.RoundTrip.IsWellFormed f
    → Parts (window_update_frame f)
unfolding serialize_into from_raw WindowUpdate.get_header
window_update_frame-Parts f w =
    let len : (WindowUpdate.get_header f).0 ≡ length (u32_octets f.increment) = refl in
    let fits : IsHeader (WindowUpdate.get_header f) = omega (arith, len) in
    (
      WindowUpdate.get_header f,
      u32_octets f.increment,
      fits,
      len,
      (λ buf. WindowUpdate.RoundTrip.serialize_into-wire f buf),
      rw
          (
            header-wire (WindowUpdate.get_header f) (u32_octets f.increment) fits,
            WindowUpdate.RoundTrip.from_raw-body f w,
          )
          refl,
    )

pub raw-serialize_into :
    (h : FrameHeader) (payload buf : List ℕ)
    → IsHeader h
    → Raw.serialize_into (raw_from (wire h payload)) (at_end buf)
      ≡ value (at_end (buf ++ wire h payload))
unfolding Raw.serialize_into
raw-serialize_into h payload buf fits =
    rw (header-wire h payload fits, payload-wire h payload) (simp writes)

unknown-from_raw :
    (h : FrameHeader) (payload : List ℕ)
    → IsHeader h
    → (h.1 ≢ 0x0) × (h.1 ≢ 0x1) × (h.1 ≢ 0x3) × (h.1 ≢ 0x4) × (h.1 ≢ 0x7) × (h.1 ≢ 0x8)
    → from_raw (raw_from (wire h payload))
      ≡ value (success (unknown_frame (raw_from (wire h payload))))
unfolding from_raw
unknown-from_raw (len, t, flags, id) payload fits types =
    rw (header-wire (len, t, flags, id) payload fits) (ground arith)

unknown_frame-Parts : (raw : RawFrame) → IsUnknown raw → Parts (unknown_frame raw)
unfolding serialize_into
unknown_frame-Parts raw (h, payload, content, fits, len, t0, t1, t3, t4, t7, t8) =
    let same : raw_from (wire h payload) ≡ raw = ap raw_from (sym content) in
    (
      h,
      payload,
      fits,
      len,
      (λ buf. rw (sym same) (raw-serialize_into h payload buf fits)),
      rw (sym same) (unknown-from_raw h payload fits (t0, t1, t3, t4, t7, t8)),
    )

pub parts : (f : HttpFrame) → IsWellFormed f → Parts f
parts (data_frame f) w = data_frame-Parts f w
parts (headers_frame f) w = headers_frame-Parts f w
parts (rst_stream_frame f) w = rst_stream_frame-Parts f w
parts (settings_frame f) w = settings_frame-Parts f w
parts (goaway_frame f) w = goaway_frame-Parts f w
parts (window_update_frame f) w = window_update_frame-Parts f w
parts (unknown_frame raw) w = unknown_frame-Parts raw w

-- A well-formed frame of any type is serialized without a panic to octets that `RawFrame::parse`
-- takes off the front of any buffer that starts with them, and that are recognized as the frame.
pub from_raw-serialize_into :
    (f : HttpFrame) (rest : List ℕ)
    → IsWellFormed f
    → (c : Cursor) × (serialize_into f (at_end []) ≡ value c)
      × (Raw.parse (c.buffer ++ rest) ≡ value (some (raw_from c.buffer)))
      × (from_raw (raw_from c.buffer) ≡ value (success f))
from_raw-serialize_into f rest w =
    let (h, payload, fits, len, written, recognized) = parts f w in
    (at_end (wire h payload), written [], parse-wire h payload rest fits len, recognized)
