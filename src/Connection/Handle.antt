-- ===== src/Connection/Handle.antt =====
-- http/connection.rs: what the connection does with a received frame.
pub mod Flow
pub mod Handshake
pub mod Block
pub mod Keeps
pub mod Takes
use solicit.Base.{ℕ, Bool, true, false, not, List, map, Option, none, some, if◌then◌else◌}
use solicit.Base.Int.{as_i32}
use solicit.Http.Error.{HttpError, window_size_overflow, unable_to_connect, compression_failure}
use solicit.Http.Run.{Run, ok, err, fault, M, ◌>>=◌, ◌>>◌, pure, throw}
use solicit.Http.Response.{Header, new_header}
use solicit.Http.Window.{WindowSize, try_decrease}
use solicit.Frame.Settings
use solicit.Frame.Headers
use solicit.Frame.Data
use solicit.Frame.RstStream
use solicit.Frame.Goaway
use solicit.Connection.HttpFrame.{
  HttpFrame, data_frame, headers_frame, rst_stream_frame, settings_frame, goaway_frame,
  window_update_frame, unknown_frame,
}
use solicit.Connection.Defs.{
  Hpack, ReceiveFrame, HttpConnection, Session, DecodeResult, decoded, undecodable,
}
use solicit.Connection.Send.{on_first, on_second}

module _ (hpack : Hpack) {Sess : Type 0} (session : Session hpack Sess) where
  unfoldable pub decrease_in_window : ℕ → M (Sess × HttpConnection hpack) (Unit {0})
  decrease_in_window size (s, conn) =
      let (w, fits) = try_decrease conn.in_window_size (as_i32 size) in
      let conn' = record conn { in_window_size = w } in
      if fits then ok tt (s, conn') else err window_size_overflow (s, conn')

  -- The callback for the end of the stream, made if the frame carries the flag.
  unfoldable pub signal_end : Bool → ℕ → M (Sess × HttpConnection hpack) (Unit {0})
  signal_end true stream_id = session.end_of_stream stream_id
  signal_end false stream_id = pure tt

  unfoldable pub handle_data_frame : Data.DataFrame → M (Sess × HttpConnection hpack) (Unit {0})
  unfolding decrease_in_window signal_end
  handle_data_frame frame = do
    decrease_in_window (Data.payload_len frame)
    session.new_data_chunk (Data.get_stream_id frame) frame.content
    signal_end (Data.is_set frame Data.end_stream) (Data.get_stream_id frame)

  -- The decoder's context changes also where the block cannot be decoded.
  unfoldable pub decode_headers : List ℕ → M (Sess × HttpConnection hpack) (List Header)
  decode_headers fragment (s, conn) =
      let (r, decoder) = hpack.decode conn.decoder fragment in
      let conn' = record conn { decoder = decoder } in
      elim r [
        | decoded headers ↦ ok (map (λ h. new_header h.0 h.1) headers) (s, conn')
        | undecodable e ↦ err (compression_failure e) (s, conn')
      ]

  unfoldable pub handle_headers_frame :
      Headers.HeadersFrame → M (Sess × HttpConnection hpack) (Unit {0})
  unfolding decode_headers signal_end
  handle_headers_frame frame = do
    headers ← decode_headers frame.header_fragment
    session.new_headers (Headers.get_stream_id frame) headers
    signal_end (Headers.is_end_of_stream frame) (Headers.get_stream_id frame)

  unfoldable pub handle_rst_stream_frame :
      RstStream.RstStreamFrame → M (Sess × HttpConnection hpack) (Unit {0})
  handle_rst_stream_frame frame =
      session.rst_stream (RstStream.get_stream_id frame) (RstStream.error_code frame)

  unfoldable pub handle_settings_frame :
      Settings.SettingsFrame → M (Sess × HttpConnection hpack) (Unit {0})
  handle_settings_frame frame =
      if not (Settings.is_ack frame) then session.new_settings frame.settings else pure tt

  unfoldable pub handle_frame : HttpFrame → M (Sess × HttpConnection hpack) (Unit {0})
  unfolding handle_data_frame handle_headers_frame handle_rst_stream_frame handle_settings_frame
  handle_frame (data_frame frame) = handle_data_frame frame
  handle_frame (headers_frame frame) = handle_headers_frame frame
  handle_frame (rst_stream_frame frame) = handle_rst_stream_frame frame
  handle_frame (settings_frame frame) = handle_settings_frame frame
  handle_frame (goaway_frame frame) =
      session.on_goaway frame.last_stream_id (Goaway.error_code frame) frame.debug_data
  handle_frame (window_update_frame frame) = pure tt
  handle_frame (unknown_frame frame) = pure tt

  module _ {Rx : Type 0} ⦃rx : ReceiveFrame Rx⦄ where
    unfoldable pub handle_next_frame : M (Rx × (Sess × HttpConnection hpack)) (Unit {0})
    unfolding handle_frame
    handle_next_frame = do frame ← on_first rx.recv_frame; on_second (handle_frame frame)

    -- The first frame of the peer has to be a SETTINGS frame with no ACK.
    unfoldable pub expect_settings : M (Rx × (Sess × HttpConnection hpack)) (Unit {0})
    unfolding handle_frame
    expect_settings = do
      frame ← on_first rx.recv_frame
      elim frame [
        | settings_frame settings ↦
            if not (Settings.is_ack settings)
            then on_second (handle_frame (settings_frame settings))
            else throw unable_to_connect
        | _ ↦ throw unable_to_connect
      ]
