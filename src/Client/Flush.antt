-- ===== src/Client/Flush.antt =====
-- http/client/mod.rs: sending the next data of in-memory streams over a stream of octets.
use solicit.Base.{
  ℕ, ◌<◌, ◌≡◌, ◌≢◌, refl, arith, inl, inr, ◌⊎◌, List, [], Option, none, some, value, replicate,
  length-replicate, Bool-cases,
}
use solicit.Base.Int.{as_i32}
use solicit.Http.Error.{HttpError, success, window_size_overflow}
use solicit.Http.Run.{Run, ok, err, fault}
use solicit.Http.Window.{try_decrease}
use solicit.Frame.Wire.{wire}
use solicit.Frame.Data
use solicit.Frame.Data.RoundTrip
use solicit.Session.Stream.{DefaultStream, default_stream, default_get_data_chunk}
use solicit.Session.State.{SessionState}
use solicit.Priority.{DataChunk, get_next_chunk}
use solicit.Priority.Total.{ids}
use solicit.Priority.Pending.{pending}
use solicit.Priority.Flush.{Flushing, Flushed, get_next_chunk-Outcome}
use solicit.Connection.Defs.{Hpack, HttpConnection}
use solicit.Connection.Keeps.{Run-cases}
use solicit.Connection.Send.{
  SendStatus, sent, nothing, chunk_frame, decrease_out_window, send_data, DataPrioritizer,
}
use solicit.Connection.Send
use solicit.Transport.{TransportStream, transport_send}
use solicit.Transport
use solicit.Client.{simple_prioritizer}

module _ (hpack : Hpack) {T : Type 0} ⦃ts : TransportStream T⦄
    (writes : (bytes : List ℕ) (t : T) → ts.write_all bytes t ≢ fault) where
  send_frame_returns :
      (f : Data.DataFrame) (t : T)
      → ((t' : T) × (Transport.send_frame (Data.serialize_into f) t ≡ ok tt t'))
        ⊎ ((e : HttpError) × (t' : T) × (Transport.send_frame (Data.serialize_into f) t ≡ err e t'))
  unfolding Transport.send_frame
  send_frame_returns f t =
      let octets = wire (Data.get_header f) (RoundTrip.body f) in
      let written = RoundTrip.serialize_into-wire f [] in
      elim (Run-cases (ts.write_all octets t)) [
        | inl (a, t', e) ↦ inl (t', rw (written, e) refl)
        | inr (inl (x, t', e)) ↦ inr (x, t', rw (written, e) refl)
        | inr (inr e) ↦ absurd (writes octets t e)
      ]

  pub send_data_returns :
      (c : DataChunk) (conn : HttpConnection hpack) (out : T)
      → ((w : HttpConnection hpack × T) × (send_data hpack c (conn, out) ≡ ok tt w))
        ⊎ ((e : HttpError) × (w : HttpConnection hpack × T) × (send_data hpack c (conn, out)
              ≡ err e w))
  unfolding send_data decrease_out_window Send.send_frame
  send_data_returns c conn out =
      let n = as_i32 (Data.payload_len (chunk_frame c)) in
      let conn' : HttpConnection hpack = record conn {
        out_window_size = (try_decrease conn.out_window_size n).0;
      } in
      elim (Bool-cases (try_decrease conn.out_window_size n).1) [
        | inl fits ↦ elim (send_frame_returns (chunk_frame c) out) [
          | inl (t', e) ↦ inl ((conn', t'), rw (fits, e) refl)
          | inr (x, t', e) ↦ inr (x, (conn', t'), rw (fits, e) refl)
        ]
        | inr over ↦ inr (window_size_overflow, (conn', out), rw over refl)
      ]

  pub prioritized :
      (size : ℕ) (st : SessionState DefaultStream) (m : List (ℕ × DefaultStream))
      (c : Option DataChunk)
      → get_next_chunk st.streams (replicate size 0) ≡ value (m, success c)
      → (simple_prioritizer size).get_next_chunk st ≡ ok c (record st { streams = m })
  unfolding simple_prioritizer
  prioritized size st m c e = rw (simple_prioritizer, e) refl

  module _ {Prio : Type 0} (p : DataPrioritizer Prio) (st st' : Prio) where
    pub sends_chunk :
        (c : DataChunk) (w : HttpConnection hpack × T)
        → (p.get_next_chunk st ≡ ok (some c) st'
            → (w' : HttpConnection hpack × T) → send_data hpack c w ≡ ok tt w'
            → Send.send_next_data hpack p (w, st) ≡ ok sent (w', st'))
          × (p.get_next_chunk st ≡ ok (some c) st'
              → (x : HttpError) (w' : HttpConnection hpack × T) → send_data hpack c w ≡ err x w'
              → Send.send_next_data hpack p (w, st) ≡ err x (w', st'))
    unfolding Send.send_next_data
    sends_chunk c w = (λ e w' e'. rw (e, e') refl, λ e x w' e'. rw (e, e') refl)

    pub sends_nothing :
        (w : HttpConnection hpack × T)
        → p.get_next_chunk st ≡ ok none st'
        → Send.send_next_data hpack p (w, st) ≡ ok nothing (w, st')
    unfolding Send.send_next_data
    sends_nothing w e = rw e refl

  module _ (P : DefaultStream → Type 0)
      (keep : (buf : List ℕ) (s : DefaultStream) → P s → P (default_get_data_chunk buf s).0) where
    -- What a turn does: a chunk goes out and less is left, nothing is left, or it is an error.
    abbrev pub Sends :
        SessionState DefaultStream
        → HttpConnection hpack × T
        → Run ((HttpConnection hpack × T) × SessionState DefaultStream) SendStatus
        → Type 0
    Sends st w run =
        ((w' : HttpConnection hpack × T) × (m : List (ℕ × DefaultStream)) × (run
            ≡ ok sent (w', record st { streams = m }))
          × Flushing P m
          × (pending m < pending st.streams)
          × (ids m ≡ ids st.streams))
        ⊎ (((run ≡ ok nothing (w, st)) × Flushed st.streams)
            ⊎ ((e : HttpError) × (w' : (HttpConnection hpack × T) × SessionState DefaultStream)
                × (run ≡ err e w')))

    pub send_next_data-Sends :
        (size : ℕ) (st : SessionState DefaultStream) (conn : HttpConnection hpack) (out : T)
        → 0 < size
        → Flushing P st.streams
        → Sends st
            (conn, out)
            (Send.send_next_data hpack (simple_prioritizer size) ((conn, out), st))
    send_next_data-Sends size st conn out room good =
        elim (get_next_chunk-Outcome P keep st.streams (replicate size 0)
          (omega (arith, length-replicate {A = ℕ} size 0)) good) [
            | inl (m, c, e, good', less, same) ↦
                let chosen = prioritized size st m (some c) e in
                elim (send_data_returns c conn out) [
                  | inl (w, e') ↦
                      inl
                        (w, m, (sends_chunk _ st _ c (conn, out)).0 chosen w e', good', less, same)
                  | inr (x, w, e') ↦
                      inr (inr (x, _, (sends_chunk _ st _ c (conn, out)).1 chosen x w e'))
                ]
            | inr (e, over) ↦ inr (
                inl
                  (sends_nothing _ st st (conn, out) (prioritized size st st.streams none e), over))
          ]
