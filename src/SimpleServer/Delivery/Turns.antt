-- ===== src/SimpleServer/Delivery/Turns.antt =====
-- server/mod.rs and client/simple.rs: a turn of `flush_streams`, and the client's next frame.
use solicit.Base.{
  ℕ, ◌<◌, ◌≡◌, ◌≢◌, refl, sym, arith, true, inl, inr, ◌⊎◌, List, ◌++◌, none, some, length,
  replicate, length-replicate, ◌==◌, if◌then◌else◌, IsU31,
}
use mathlib.Core.Path.{subst}
use solicit.Http.Run.{ok, err, fault}
use solicit.Session.Stream.{DefaultStream, default_stream}
use solicit.Session.State.{get_stream_ref}
use solicit.Session.State.Maps.{Distinct, AllKeys}
use solicit.Priority.{DataChunk}
use solicit.Priority.Flush.{Flushed}
use solicit.Priority.Chunks.{InBounds, Taken, get_next_chunk-Chosen}
use solicit.Priority.Taken.{Taken-InBounds, Taken-ids, Taken-AllKeys, length-Taken}
use solicit.Connection.HttpFrame.{data_frame}
use solicit.Connection.Defs.{Hpack, HttpConnection}
use solicit.Connection.Send.{SendStatus, sent, nothing, chunk_frame}
use solicit.Connection.Chunks.{Fits, chunk_frame-IsWellFormed, window_after, send_data-octets}
use solicit.Connection.Handle
use solicit.Transport.{TransportStream, transport_send, transport_receive}
use solicit.Transport.ReadExact.{IsStream}
use solicit.Transport.Delivery.{octets_of, recv_frame-octets}
use solicit.Client
use solicit.Client.{simple_prioritizer, max_chunk_size}
use solicit.Client.Chunks.{received, handle_frame-chunk_frame}
use solicit.Client.Flush.{send_data_returns, prioritized, sends_chunk, sends_nothing}
use solicit.SimpleClient.{SimpleClient}
use solicit.SimpleClient
use solicit.SimpleServer.{SimpleServer, send_next_data}
use solicit.SimpleServer.Flush.{after_send, send_next_data-after_send}
use solicit.SimpleServer.Flush.Streams.{ids-Distinct}

-- An identifier of a stream.
abbrev pub IsId : ℕ → Type 0
IsId i = (0 < i) × IsU31 i

-- The cursors lie within their data, and the keys are identifiers, none of which is twice.
abbrev pub Sendable : List (ℕ × DefaultStream) → Type 0
Sendable m = InBounds m × Distinct m × AllKeys IsId m

pub Taken-Sendable :
    {size : ℕ} {c : DataChunk} (m m' : List (ℕ × DefaultStream))
    → Taken size c m m'
    → Sendable m
    → Sendable m'
Taken-Sendable m m' taken (within, d, keys) = (
  Taken-InBounds m m' taken within,
  ids-Distinct m m' (Taken-ids m m' taken) d,
  (Taken-AllKeys IsId m m' taken keys).1,
)

Taken-Fits :
    {c : DataChunk} (m m' : List (ℕ × DefaultStream))
    → Taken max_chunk_size c m m'
    → AllKeys IsId m
    → Fits c
Taken-Fits m m' taken keys =
    let id = (Taken-AllKeys IsId m m' taken keys).0 in
    (id.0, id.1, omega (arith, length-Taken m m' taken))

abbrev pub chunk_octets : (c : DataChunk) → Fits c → List ℕ
chunk_octets c fits = octets_of (data_frame (chunk_frame c)) (chunk_frame-IsWellFormed c fits)

no_fault :
    {T : Type 0} ⦃ts : TransportStream T⦄
    → IsStream ts
    → (bytes : List ℕ) (t : T) → ts.write_all bytes t ≢ fault
no_fault stream bytes t e = let (t', done, grown) = stream.write_all_end bytes t in absurd cc

module _ {hpack : Hpack} {T : Type 0} ⦃ts : TransportStream T⦄ (stream : IsStream ts) where
  module _ {H : Type 0} where
    -- The chunk was taken from the streams and from the window, and its octets were written.
    abbrev pub Sent : DataChunk → SimpleServer hpack T H → SimpleServer hpack T H → Type 0
    Sent c s s1 =
        (fits : Fits c) × Taken max_chunk_size c s.conn.state.streams s1.conn.state.streams
        × ((window_after c s.conn.conn.out_window_size).1 ≡ true)
        × (s1.conn.conn.out_window_size ≡ (window_after c s.conn.conn.out_window_size).0)
        × (stream.written s1.sender ≡ stream.written s.sender ++ chunk_octets c fits)

    -- A turn without an error: nothing was left to send, or a chunk was sent.
    abbrev pub SendTurn : SendStatus → SimpleServer hpack T H → SimpleServer hpack T H → Type 0
    SendTurn status s s1 =
        ((status ≡ nothing) × (s1.sender ≡ s.sender) × Flushed s.conn.state.streams)
        ⊎ ((status ≡ sent) × ((c : DataChunk) × Sent c s s1))

    sent_one :
        (s s1 : SimpleServer hpack T H) (status : SendStatus)
        → send_next_data s ≡ ok status s1
        → (c : DataChunk) (fits : Fits c) (m : List (ℕ × DefaultStream))
          (w : HttpConnection hpack × T)
        → Taken max_chunk_size c s.conn.state.streams m
        → send_next_data s ≡ after_send s (ok sent (w, record s.conn.state { streams = m }))
        → (window_after c s.conn.conn.out_window_size).1 ≡ true
        → w.0
          ≡ record s.conn.conn { out_window_size = (window_after c s.conn.conn.out_window_size).0 }
        → stream.written w.1 ≡ stream.written s.sender ++ chunk_octets c fits
        → SendTurn status s s1
    sent_one s s1 status done c fits m (conn', out') taken result room same grown =
        let after : SimpleServer hpack T H = record s {
          sender = out';
          conn = record { conn = conn'; state = record s.conn.state { streams = m } };
        } in
        let at : after ≡ s1 = cc in
        inr (
          cc,
          (
            c,
            (
              fits,
              subst
                  (λ (z : SimpleServer hpack T H).
                    Taken max_chunk_size c s.conn.state.streams z.conn.state.streams)
                  at taken,
              room,
              rw (sym at, same) refl,
              rw (sym at) grown,
            ),
          ),
        )

    pub send_next_data-SendTurn :
        (s s1 : SimpleServer hpack T H) (status : SendStatus)
        → send_next_data s ≡ ok status s1
        → Sendable s.conn.state.streams
        → SendTurn status s s1
    send_next_data-SendTurn s s1 status done (within, d, keys) =
        let st = s.conn.state in
        let conn = s.conn.conn in
        let size : length (replicate {A = ℕ} max_chunk_size 0) ≡ max_chunk_size =
          length-replicate {A = ℕ} max_chunk_size 0 in
        elim (get_next_chunk-Chosen st.streams (replicate {A = ℕ} max_chunk_size 0) within) [
          | inr (e, over) ↦
              let chosen =
                prioritized hpack (no_fault stream) max_chunk_size st st.streams none e in
              let last = sends_nothing hpack (no_fault stream) _ st st (conn, s.sender) chosen in
              let result = send_next_data-after_send s (ok nothing ((conn, s.sender), st)) last in
              inl (cc, cc, over)
          | inl (m, c, e, taken') ↦
              let taken : Taken max_chunk_size c st.streams m =
                subst (λ n. Taken n c st.streams m) size taken' in
              let fits = Taken-Fits st.streams m taken keys in
              let chosen = prioritized hpack (no_fault stream) max_chunk_size st m (some c) e in
              elim (send_data_returns hpack (no_fault stream) c conn s.sender) [
                | inl (w, e') ↦
                    let run =
                      (sends_chunk hpack (no_fault stream) _ st _ c (conn, s.sender)).0 chosen w
                        e' in
                    let result =
                      send_next_data-after_send s (ok sent (w, record st { streams = m })) run in
                    let (room, same, grown) =
                      send_data-octets hpack stream c fits conn s.sender w e' in
                    sent_one s s1 status done c fits m w taken result room same grown
                | inr (x, w, e') ↦
                    let run =
                      (sends_chunk hpack (no_fault stream) _ st _ c (conn, s.sender)).1 chosen x w
                        e' in
                    let result =
                      send_next_data-after_send s (err x (w, record st { streams = m })) run in
                    absurd cc
              ]
        ]

  -- A client whose unread octets begin with a chunk takes it where its window has room.
  pub handle_next_frame-chunk_octets :
      (c : DataChunk) (fits : Fits c) (k : SimpleClient hpack T) (rest : List ℕ)
      → stream.unread k.receiver ≡ chunk_octets c fits ++ rest
      → (window_after c k.conn.conn.in_window_size).1 ≡ true
      → (k' : SimpleClient hpack T) × (SimpleClient.handle_next_frame k ≡ ok tt k')
        × (stream.unread k'.receiver ≡ rest)
        × (k'.conn.conn.in_window_size ≡ (window_after c k.conn.conn.in_window_size).0)
        × ((j : ℕ) (x : DefaultStream)
            → get_stream_ref k.conn.state j ≡ some x
            → get_stream_ref k'.conn.state j ≡ some (if c.stream_id == j then received c x else x))
  unfolding SimpleClient.handle_next_frame SimpleClient.on_conn Client.handle_next_frame
      Handle.handle_next_frame
  handle_next_frame-chunk_octets c fits k rest octets room =
      let (rx, got, left) =
        recv_frame-octets stream (data_frame (chunk_frame c)) (chunk_frame-IsWellFormed c fits) rest
          k.receiver octets in
      let (st, handled, streams) =
        handle_frame-chunk_frame hpack c k.conn.state k.sender k.conn.conn room in
      (
        record k {
          receiver = rx;
          conn = record {
            conn = record k.conn.conn {
              in_window_size = (window_after c k.conn.conn.in_window_size).0;
            };
            state = st;
          };
        },
        rw (got, handled) refl,
        left,
        refl,
        streams,
      )
