-- ===== src/SimpleServer/Delivery.antt =====
-- server/mod.rs and client/simple.rs: the data of a response reaches the client.
pub mod Turns
use solicit.Base.{
  ℕ, zero, suc, ◌≤◌, ◌≡◌, ◌≢◌, refl, sym, ap, ◌∙◌, arith, true, false, inl, inr, ◌⊎◌, List, [], ◌∷◌,
  ◌++◌, append_assoc, append-nil, Option, none, some, ◌==◌, ==_refl, ==_iff, if◌then◌else◌,
  Bool-cases,
}
use mathlib.Core.Path.{subst}
use solicit.Http.Run.{ok}
use solicit.Http.Response.{Header}
use solicit.Session.Stream.{
  DefaultStream, default_stream, default_new_data_chunk, local_closed, is_closed, close,
}
use solicit.Session.Stream.Chunks.{left_over}
use solicit.Session.State.{get_stream_ref}
use solicit.Priority.{DataChunk, yes_end, no_end}
use solicit.Priority.Chunks.{Next}
use solicit.Priority.Taken.{Taken-lookup}
use solicit.Connection.Defs.{Hpack}
use solicit.Connection.Send.{SendStatus, sent, nothing}
use solicit.Connection.Repeat.{repeat, repeat-zero, repeat-turn}
use solicit.Connection.Chunks.{Fits}
use solicit.Transport.{TransportStream}
use solicit.Transport.ReadExact.{IsStream}
use solicit.Client.Chunks.{received}
use solicit.SimpleClient.{SimpleClient, get_response}
use solicit.SimpleClient
use solicit.SimpleClient.Arrives.{Arrives, later, last_one}
use solicit.SimpleServer.{SimpleServer, send_next_data, flush_streams}
use solicit.SimpleServer.Flush.Streams.{found-Flushed}
use solicit.SimpleServer.Delivery.Turns.{
  Sendable, Taken-Sendable, chunk_octets, Sent, SendTurn, send_next_data-SendTurn,
  handle_next_frame-chunk_octets,
}

-- The octets are those written between two states of a stream.
module _ {T : Type 0} ⦃ts : TransportStream T⦄ (stream : IsStream ts) where
  abbrev pub Wrote : List ℕ → T → T → Type 0
  Wrote octets t t' = stream.written t' ≡ stream.written t ++ octets

  pub Wrote-append :
      (xs ys : List ℕ) (t t1 t2 : T) → Wrote xs t t1 → Wrote ys t1 t2 → Wrote (xs ++ ys) t t2
  Wrote-append xs ys t t1 t2 first second =
      rw (second, first) (append_assoc (stream.written t) xs ys)

module _ {hpack : Hpack} {T H : Type 0} ⦃ts : TransportStream T⦄ (stream : IsStream ts) where
  flush_grows :
      (n : ℕ) (s s' : SimpleServer hpack T H)
      → repeat send_next_data n s ≡ ok tt s'
      → Sendable s.conn.state.streams
      → (octets : List ℕ) × Wrote stream octets s.sender s'.sender
  flush_grows zero s s' done good = absurd (repeat-zero send_next_data s s' done)
  flush_grows (suc n) s s' done good = elim (repeat-turn send_next_data n s s' done) [
    | inl last ↦ elim (send_next_data-SendTurn stream s s' nothing last good) [
      | inl (_, same, _) ↦ ([], rw same (sym (append-nil (stream.written s.sender))))
      | inr (other, _) ↦ absurd cc
    ]
    | inr (s1, first, rest) ↦ elim (send_next_data-SendTurn stream s s1 sent first good) [
      | inl (other, _, _) ↦ absurd cc
      | inr (_, (c, (fits, taken, _, _, grown))) ↦
          let good1 = Taken-Sendable s.conn.state.streams s1.conn.state.streams taken good in
          let (octets, grown1) = flush_grows n s1 s' rest good1 in
          (
            chunk_octets c fits ++ octets,
            Wrote-append stream (chunk_octets c fits) octets s.sender s1.sender s'.sender grown
                grown1,
          )
    ]
  ]

  module _ (j : ℕ) where
    -- Any client that has the octets to read, its window that of the server, and the stream open.
    abbrev pub Delivers : List ℕ → SimpleServer hpack T H → List ℕ → Type 0
    Delivers octets s bytes =
        (k : SimpleClient hpack T) (x : DefaultStream) (rest : List ℕ)
        → stream.unread k.receiver ≡ octets ++ rest
        → k.conn.conn.in_window_size ≡ s.conn.conn.out_window_size
        → get_stream_ref k.conn.state j ≡ some x
        → is_closed x ≡ false
        → Arrives j k x bytes

    other-Delivers :
        (c : DataChunk) (s s1 : SimpleServer hpack T H) (octets bytes : List ℕ)
        (one : Sent stream c s s1)
        → c.stream_id ≢ j
        → Delivers octets s1 bytes
        → Delivers (chunk_octets c one.0 ++ octets) s bytes
    other-Delivers c s s1 octets bytes (fits, taken, room, window, grown) other delivers k x rest
          unread same found opened =
        let (k1, handled, left, window1, streams) =
          handle_next_frame-chunk_octets stream c fits k (octets ++ rest)
            (unread ∙ append_assoc (chunk_octets c fits) octets rest) (rw same room) in
        let skipped : (c.stream_id == j) ≡ false = ground arith in
        let found1 : get_stream_ref k1.conn.state j ≡ some x =
          streams j x found ∙ rw skipped refl in
        later j k k1 x x [] bytes found opened handled (sym (append-nil x.body)) refl
          (delivers k1 x rest left (rw (window1, same, window) refl) found1 opened)

    more-Delivers :
        (c : DataChunk) (s s1 : SimpleServer hpack T H) (octets bytes : List ℕ)
        (one : Sent stream c s s1)
        → c.stream_id ≡ j
        → c.end_stream ≡ no_end
        → Delivers octets s1 bytes
        → Delivers (chunk_octets c one.0 ++ octets) s (c.content ++ bytes)
    unfolding default_new_data_chunk is_closed
    more-Delivers c s s1 octets bytes (fits, taken, room, window, grown) this more delivers k x rest
          unread same found opened =
        let (k1, handled, left, window1, streams) =
          handle_next_frame-chunk_octets stream c fits k (octets ++ rest)
            (unread ∙ append_assoc (chunk_octets c fits) octets rest) (rw same room) in
        let x1 = default_new_data_chunk c.content x in
        let found1 : get_stream_ref k1.conn.state j ≡ some x1 =
          streams j x found ∙ rw (this, ==_refl j, more) refl in
        later j k k1 x x1 c.content bytes found opened handled refl refl
          (delivers k1 x1 rest left (rw (window1, same, window) refl) found1 opened)

    last-Delivers :
        (c : DataChunk) (s s1 : SimpleServer hpack T H) (octets : List ℕ) (one : Sent stream c s s1)
        → c.stream_id ≡ j
        → c.end_stream ≡ yes_end
        → Delivers (chunk_octets c one.0 ++ octets) s c.content
    unfolding default_new_data_chunk is_closed close
    last-Delivers c s s1 octets (fits, taken, room, window, grown) this last k x rest unread same
          found opened =
        let (k1, handled, left, window1, streams) =
          handle_next_frame-chunk_octets stream c fits k (octets ++ rest)
            (unread ∙ append_assoc (chunk_octets c fits) octets rest) (rw same room) in
        let x1 = close (default_new_data_chunk c.content x) in
        let found1 : get_stream_ref k1.conn.state j ≡ some x1 =
          streams j x found ∙ rw (this, ==_refl j, last) refl in
        last_one j k k1 x x1 c.content found opened handled found1 refl refl refl

    -- What the rest of the loop does after a chunk.
    abbrev Rest : SimpleServer hpack T H → SimpleServer hpack T H → DefaultStream → Type 0
    Rest s s' y =
        (octets : List ℕ) × Wrote stream octets s.sender s'.sender
        × Delivers octets s (left_over y.outgoing)

    after_chunk :
        (c : DataChunk) (s s1 s' : SimpleServer hpack T H) (y y' : DefaultStream) (size : ℕ)
        (one : Sent stream c s s1)
        → c.stream_id ≡ j
        → Next size c y y'
        → ((octets : List ℕ) × Wrote stream octets s1.sender s'.sender)
        → (local_closed y'.state ≡ false → Rest s1 s' y')
        → Rest s s' y
    after_chunk c s s1 s' y y' size one this next (octets, grown) rest =
        let (_, _, whole, _, _, end) = next in
        elim end [
          | inl (last, empty, shut) ↦
              let all : c.content ≡ left_over y.outgoing =
                sym (append-nil c.content) ∙ ap (λ zs. c.content ++ zs) (sym empty) ∙ whole in
              (
                chunk_octets c one.0 ++ octets,
                Wrote-append stream (chunk_octets c one.0) octets s.sender s1.sender s'.sender one.4
                    grown,
                subst (Delivers (chunk_octets c one.0 ++ octets) s) all
                    (last-Delivers c s s1 octets one this last),
              )
          | inr (more, opened) ↦
              let (octets1, grown1, delivers) = rest opened in
              (
                chunk_octets c one.0 ++ octets1,
                Wrote-append stream (chunk_octets c one.0) octets1 s.sender s1.sender s'.sender
                    one.4 grown1,
                subst (Delivers (chunk_octets c one.0 ++ octets1) s) whole
                    (more-Delivers c s s1 octets1 (left_over y'.outgoing) one this more delivers),
              )
        ]

    pub flush_delivers :
        (n : ℕ) (s s' : SimpleServer hpack T H) (y : DefaultStream)
        → repeat send_next_data n s ≡ ok tt s'
        → Sendable s.conn.state.streams
        → get_stream_ref s.conn.state j ≡ some y
        → local_closed y.state ≡ false
        → y.outgoing ≢ none
        → Rest s s' y
    unfolding get_stream_ref
    flush_delivers zero s s' y done good found writable has =
        absurd (repeat-zero send_next_data s s' done)
    flush_delivers (suc n) s s' y done good found writable has =
        elim (repeat-turn send_next_data n s s' done) [
          | inl last ↦ elim (send_next_data-SendTurn stream s s' nothing last good) [
            | inl (_, _, flushed) ↦ elim (found-Flushed j y s.conn.state.streams flushed found) [
              | inl shut ↦ absurd cc
              | inr missing ↦ absurd (has missing)
            ]
            | inr (other, _) ↦ absurd cc
          ]
          | inr (s1, first, rest) ↦ elim (send_next_data-SendTurn stream s s1 sent first good) [
            | inl (other, _, _) ↦ absurd cc
            | inr (_, (c, one)) ↦
                let (fits, taken, room, window, grown) = one in
                let good1 = Taken-Sendable s.conn.state.streams s1.conn.state.streams taken good in
                elim (Taken-lookup j y s.conn.state.streams s1.conn.state.streams taken good.1
                  found) [
                    | inr (other, found1) ↦
                        let (octets, grown1, delivers) =
                          flush_delivers n s1 s' y rest good1 found1 writable has in
                        (
                          chunk_octets c fits ++ octets,
                          Wrote-append stream (chunk_octets c fits) octets s.sender s1.sender
                              s'.sender grown grown1,
                          other-Delivers c s s1 octets (left_over y.outgoing) one other delivers,
                        )
                    | inl (this, (y', found1, next)) ↦
                        after_chunk c s s1 s' y y' _ one this next (flush_grows n s1 s' rest good1)
                          (λ opened. flush_delivers n s1 s' y' rest good1 found1 opened next.4)
                  ]
          ]
        ]
