-- ===== src/Connection/Send.antt =====
-- http/connection.rs: `HttpConnectionSender`, over the connection and the sender that it borrows.
use solicit.Base.{ℕ, List, map, Option, none, some, if◌then◌else◌}
use solicit.Base.Int.{as_i32}
use solicit.Http.Error.{window_size_overflow}
use solicit.Http.Run.{Run, ok, err, fault, M, ◌>>=◌, ◌>>◌, pure}
use solicit.Http.Response.{Header}
use solicit.Http.Window.{try_decrease}
use solicit.Frame.Settings
use solicit.Frame.Headers
use solicit.Frame.Data
use solicit.Priority.{EndStream, yes_end, no_end, DataChunk}
use solicit.Connection.Defs.{Hpack, FrameIr, SendFrame, HttpConnection}

pub data SendStatus : Type 0 where
  sent nothing : SendStatus

-- `DataPrioritizer`, for its state.
pub record DataPrioritizer (P : Type 0) : Type 0 where
  pub get_next_chunk : M P (Option DataChunk)

-- A result on one half of the state.
abbrev pub beside_second {ℓ} : {W V : Type 0} {A : Type ℓ} → W → Run V A → Run (W × V) A
beside_second w (ok a v) = ok a (w, v)
beside_second w (err e v) = err e (w, v)
beside_second w fault = fault

abbrev pub beside_first {ℓ} : {W V : Type 0} {A : Type ℓ} → V → Run W A → Run (W × V) A
beside_first v (ok a w) = ok a (w, v)
beside_first v (err e w) = err e (w, v)
beside_first v fault = fault

-- An action on one half of the state.
abbrev pub on_second {ℓ} : {W V : Type 0} {A : Type ℓ} → M V A → M (W × V) A
on_second m s = beside_second s.0 (m s.1)

abbrev pub on_first {ℓ} : {W V : Type 0} {A : Type ℓ} → M W A → M (W × V) A
on_first m s = beside_first s.1 (m s.0)

-- The frame that `send_headers` builds from an encoded block.
unfoldable pub headers_frame : List ℕ → ℕ → EndStream → Headers.HeadersFrame
headers_frame fragment stream_id end_stream =
    let frame = Headers.set_flag (Headers.new fragment stream_id) Headers.end_headers in
    elim end_stream [ yes_end ↦ Headers.set_flag frame Headers.end_stream | no_end ↦ frame ]

-- The frame that `send_data` builds.
unfoldable pub chunk_frame : DataChunk → Data.DataFrame
chunk_frame chunk =
    let frame = Data.with_data chunk.stream_id chunk.content in
    elim chunk.end_stream [ yes_end ↦ Data.set_flag frame Data.end_stream | no_end ↦ frame ]

module _ (hpack : Hpack) {Tx : Type 0} ⦃tx : SendFrame Tx⦄ where
  unfoldable pub send_frame : FrameIr → M (HttpConnection hpack × Tx) (Unit {0})
  send_frame frame = on_second (tx.send_frame frame)

  unfoldable pub send_settings_ack : M (HttpConnection hpack × Tx) (Unit {0})
  unfolding send_frame
  send_settings_ack = send_frame (Settings.serialize_into Settings.new_ack)

  unfoldable pub send_headers :
      List Header → ℕ → EndStream → M (HttpConnection hpack × Tx) (Unit {0})
  unfolding send_frame
  send_headers headers stream_id end_stream (conn, out) =
      let (fragment, encoder) = hpack.encode conn.encoder (map (λ h. (h.name, h.value)) headers) in
      send_frame (Headers.serialize_into (headers_frame fragment stream_id end_stream))
        (record conn { encoder = encoder }, out)

  unfoldable pub decrease_out_window : ℕ → M (HttpConnection hpack × Tx) (Unit {0})
  decrease_out_window size (conn, out) =
      let (w, fits) = try_decrease conn.out_window_size (as_i32 size) in
      let conn' = record conn { out_window_size = w } in
      if fits then ok tt (conn', out) else err window_size_overflow (conn', out)

  unfoldable pub send_data : DataChunk → M (HttpConnection hpack × Tx) (Unit {0})
  unfolding send_frame decrease_out_window
  send_data chunk = do
    let frame = chunk_frame chunk
    decrease_out_window (Data.payload_len frame)
    send_frame (Data.serialize_into frame)

  unfoldable pub send_next_data :
      {P : Type 0} → DataPrioritizer P → M ((HttpConnection hpack × Tx) × P) SendStatus
  send_next_data p = do
    chunk ← on_second p.get_next_chunk
    elim chunk [ none ↦ pure nothing | some c ↦ on_first (send_data c) >>= λ _. pure sent ]
