-- ===== src/Connection/Chunks.antt =====
-- http/connection.rs: a chunk that is sent, on the wire.
use solicit.Base.{
  ℕ, ◌^◌, ◌<◌, ◌≡◌, refl, sym, arith, Bool, true, inl, inr, List, ◌++◌, length, IsU31, Bool-cases,
}
use solicit.Base.Int.{as_i32}
use solicit.Http.Run.{ok, err}
use solicit.Http.Error.{window_size_overflow}
use solicit.Http.Window.{WindowSize, try_decrease}
use solicit.Frame.Raw.{has_flag, with_flag}
use solicit.Frame.Data
use solicit.Priority.{EndStream, yes_end, no_end, DataChunk}
use solicit.Connection.HttpFrame.{data_frame, serialize_into}
use solicit.Connection.HttpFrame.RoundTrip.{IsWellFormed}
use solicit.Connection.Defs.{Hpack, HttpConnection}
use solicit.Connection.Send.{chunk_frame, send_data}
use solicit.Connection.Send
use solicit.Transport.{TransportStream, transport_send}
use solicit.Transport.ReadExact.{IsStream}
use solicit.Transport.Delivery.{octets_of, send_frame-octets}

-- A chunk for an identifier of 31 bits, with octets that fit into a frame.
abbrev pub Fits : DataChunk → Type 0
Fits c = (0 < c.stream_id) × IsU31 c.stream_id × (length c.content < 2 ^ 24)

by_end-IsWellFormed :
    (content : List ℕ) (id : ℕ) (e : EndStream)
    → 0 < id
    → IsU31 id
    → length content < 2 ^ 24
    → IsWellFormed
        (data_frame (chunk_frame (record { content = content; stream_id = id; end_stream = e })))
unfolding chunk_frame Data.set_flag Data.with_data has_flag with_flag
by_end-IsWellFormed content id yes_end positive id_fits small = record {
  on_stream = positive;
  id_fits = id_fits;
  flags_fit = omega arith;
  fits = small;
  padding = tt;
}
by_end-IsWellFormed content id no_end positive id_fits small = record {
  on_stream = positive;
  id_fits = id_fits;
  flags_fit = omega arith;
  fits = small;
  padding = tt;
}

pub chunk_frame-IsWellFormed : (c : DataChunk) → Fits c → IsWellFormed (data_frame (chunk_frame c))
chunk_frame-IsWellFormed c (positive, id_fits, small) =
    by_end-IsWellFormed c.content c.stream_id c.end_stream positive id_fits small

-- A window after the chunk, and whether it has room for it.
abbrev pub window_after : DataChunk → WindowSize → WindowSize × Bool
window_after c w = try_decrease w (as_i32 (Data.payload_len (chunk_frame c)))

module _ (hpack : Hpack) {T : Type 0} ⦃ts : TransportStream T⦄ (stream : IsStream ts) where
  -- A chunk that is sent without an error: the window had room, and its octets are written.
  pub send_data-octets :
      (c : DataChunk) (fits : Fits c) (conn : HttpConnection hpack) (out : T)
      (world : HttpConnection hpack × T)
      → send_data hpack c (conn, out) ≡ ok tt world
      → ((window_after c conn.out_window_size).1 ≡ true)
        × (world.0 ≡ record conn { out_window_size = (window_after c conn.out_window_size).0 })
        × (stream.written world.1
            ≡ stream.written out
              ++ octets_of (data_frame (chunk_frame c)) (chunk_frame-IsWellFormed c fits))
  unfolding send_data Send.send_frame serialize_into
  send_data-octets c fits conn out world done =
      let conn' : HttpConnection hpack = record conn {
        out_window_size = (window_after c conn.out_window_size).0;
      } in
      let (out', sent, grown) =
        send_frame-octets stream (data_frame (chunk_frame c)) (chunk_frame-IsWellFormed c fits)
          out in
      elim (Bool-cases (window_after c conn.out_window_size).1) [
        | inl room ↦
            let result : send_data hpack c (conn, out) ≡ ok tt (conn', out') =
              rw (send_data, room, sent) refl in
            let same : (conn', out') ≡ world = cc in (room, cc, rw (sym same) grown)
        | inr full ↦
            let result : send_data hpack c (conn, out) ≡ err window_size_overflow (conn', out) =
              rw (send_data, full) refl in
            absurd cc
      ]
