-- ===== src/Connection/Handle/Flow.antt =====
-- http/connection.rs: flow control of received and sent DATA frames.
use solicit.Base.{ℕ, ◌^◌, ◌≡◌, refl, inl, inr, ◌⊎◌, lt→ltb, IsU31}
use solicit.Base.Int.{pos, ◌-ℤ◌, ◌≤ℤ◌, IsI32}
use solicit.Http.Error.{window_size_overflow}
use solicit.Http.Run.{err, M, ◌>>◌}
use solicit.Http.Window.{WindowSize}
use solicit.Http.Window.Bounds.{min_window, try_decrease_cases}
use solicit.Frame.Data
use solicit.Priority.{DataChunk}
use solicit.Connection.Defs.{Hpack, HttpConnection, Session, SendFrame}
use solicit.Connection.Send.{chunk_frame, send_frame, send_data}
use solicit.Connection.Handle.{handle_data_frame, signal_end}

module _ (hpack : Hpack) where
  -- The window after `n` octets were taken from it.
  abbrev pub less : WindowSize → ℕ → WindowSize
  less w n = record { size = w.size -ℤ pos n }

  -- The callbacks for a DATA frame, with no flow control.
  abbrev pub deliver :
      {Sess : Type 0}
      → Session hpack Sess
      → Data.DataFrame
      → M (Sess × HttpConnection hpack) (Unit {0})
  deliver session frame =
      session.new_data_chunk (Data.get_stream_id frame) frame.content
      >> signal_end hpack session (Data.is_set frame Data.end_stream) (Data.get_stream_id frame)

  -- If the inbound window is in the range of an i32 and the payload, padding included, has less than
  -- 2 ^ 31 octets, a received DATA frame takes this length from the window and is delivered where the
  -- window stays in the range. Otherwise the call is an error, no callback is made, and session and
  -- connection are as before.
  pub handle_data_frame_flow :
      {Sess : Type 0} (session : Session hpack Sess) (frame : Data.DataFrame) (s : Sess)
      (conn : HttpConnection hpack)
      → IsI32 conn.in_window_size.size
      → IsU31 (Data.payload_len frame)
      → let n = Data.payload_len frame in
        let w = conn.in_window_size in
        ((min_window ≤ℤ w.size -ℤ pos n)
          × (handle_data_frame hpack session frame (s, conn)
              ≡ deliver session frame (s, record conn { in_window_size = less w n })))
        ⊎ ((w.size -ℤ pos n ≤ℤ min_window -ℤ pos 1)
            × (handle_data_frame hpack session frame (s, conn)
                ≡ err window_size_overflow (s, conn)))
  unfolding handle_data_frame
  handle_data_frame_flow session frame s conn range len =
      let small = lt→ltb (Data.payload_len frame) (2 ^ 31) len in
      elim (try_decrease_cases conn.in_window_size (Data.payload_len frame) range) [
        | inl (fits, done) ↦ inl (fits, rw (small, done) refl)
        | inr (over, done) ↦ inr (over, rw (small, done) refl)
      ]

  -- If the outbound window is in the range of an i32 and the payload has less than 2 ^ 31 octets,
  -- `send_data` takes this length from the window and sends the frame where the window stays in the
  -- range. Otherwise it is an error and nothing is sent.
  pub send_data_flow :
      {Tx : Type 0} ⦃tx : SendFrame Tx⦄ (chunk : DataChunk) (conn : HttpConnection hpack) (out : Tx)
      → IsI32 conn.out_window_size.size
      → IsU31 (Data.payload_len (chunk_frame chunk))
      → let n = Data.payload_len (chunk_frame chunk) in
        let w = conn.out_window_size in
        ((min_window ≤ℤ w.size -ℤ pos n)
          × (send_data hpack chunk (conn, out)
              ≡ send_frame hpack
                  (Data.serialize_into (chunk_frame chunk))
                  (record conn { out_window_size = less w n }, out)))
        ⊎ ((w.size -ℤ pos n ≤ℤ min_window -ℤ pos 1)
            × (send_data hpack chunk (conn, out) ≡ err window_size_overflow (conn, out)))
  unfolding send_data
  send_data_flow chunk conn out range len =
      let small = lt→ltb (Data.payload_len (chunk_frame chunk)) (2 ^ 31) len in
      elim (try_decrease_cases conn.out_window_size (Data.payload_len (chunk_frame chunk)) range) [
        | inl (fits, done) ↦ inl (fits, rw (small, done) refl)
        | inr (over, done) ↦ inr (over, rw (small, done) refl)
      ]
