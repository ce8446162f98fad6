-- ===== src/Async/Sender/Order.antt =====
-- client/async.rs: whatever the interleaving of the two ends, the frames go out whole and in order.
use solicit.Base.{
  ℕ, zero, suc, ◌≡◌, refl, ◌∙◌, sym, ap, inl, inr, List, [], ◌∷◌, ◌++◌, All, All-append,
  append_assoc, append-nil, Bool-cases,
}
use solicit.Http.Run.{Run, ok, err, fault, M, followed_by, ◌>>◌, pure}
use solicit.Frame.Header.{FrameHeader}
use solicit.Frame.Wire.{wire, IsHeader}
use solicit.Connection.HttpFrame.{HttpFrame, serialize_into}
use solicit.Connection.HttpFrame.RoundTrip.{IsWellFormed, parts, raw-serialize_into}
use solicit.Connection.Send.{on_first}
use solicit.Connection.Keeps.{Run-cases}
use mathlib.Core.Path.{subst}
use solicit.Transport.{TransportStream, transport_send}
use solicit.Transport
use solicit.Transport.ReadExact.{IsStream}
use solicit.Transport.Delivery.{octets_of}
use solicit.Async.Channel.{Channel, send, send_or, recv, recv_or}
use solicit.Async.Sender.{ChannelFrameSenderHandle, send_frame, send_next}

abbrev pub octets_in : List (List ℕ) → List ℕ
octets_in [] = []
octets_in (b ∷ bs) = b ++ octets_in bs

octets_in-snoc : (bs : List (List ℕ)) (b : List ℕ) → octets_in (bs ++ b ∷ []) ≡ octets_in bs ++ b
octets_in-snoc [] b = append-nil b
octets_in-snoc (c ∷ bs) b = rw (octets_in-snoc bs b) (sym (append_assoc c (octets_in bs) b))

chain :
    {A : Type 0} (a b r c d e x : List A)
    → x ≡ a ++ (b ++ r)
    → a ++ b ≡ c ++ (d ++ e)
    → x ≡ c ++ (d ++ (e ++ r))
chain a b r c d e x later earlier =
    later ∙ sym (append_assoc a b r) ∙ rw (earlier, append_assoc, append_assoc) refl

-- A buffer with the octets of one frame.
abbrev pub IsFrame : List ℕ → Type 0
IsFrame b = (h : FrameHeader) × (payload : List ℕ) × IsHeader h × (b ≡ wire h payload)

-- The connection queues a frame, or the thread writes the next buffer.
pub data Move : Type 0 where
  queue_frame : (f : HttpFrame) → IsWellFormed f → Move
  write_next : Move

abbrev pub queued_octets : List Move → List ℕ
queued_octets [] = []
queued_octets (queue_frame f w ∷ moves) = octets_of f w ++ queued_octets moves
queued_octets (write_next ∷ moves) = queued_octets moves

-- What holds where the step succeeds.
abbrev Succeeds : {W A : Type 0} → (W → Type 0) → Run W A → Type 0
Succeeds P (ok a w) = P w
Succeeds P (err e w) = Unit {0}
Succeeds P fault = Unit {0}

-- The thread works on the channel that the handle shares.
abbrev pub with_tx :
    {T : Type 0}
    → Run (Channel (List ℕ) × T) (Unit {0})
    → Run (ChannelFrameSenderHandle × T) (Unit {0})
with_tx (ok a (c, t)) = ok a (record { tx = c }, t)
with_tx (err e (c, t)) = err e (record { tx = c }, t)
with_tx fault = fault

module _ {T : Type 0} ⦃ts : TransportStream T⦄ where
  abbrev pub move : Move → M (ChannelFrameSenderHandle × T) (Unit {0})
  move (queue_frame f w) = on_first (send_frame (serialize_into f))
  move write_next = λ (handle, t). with_tx (send_next (handle.tx, t))

  abbrev pub run : List Move → M (ChannelFrameSenderHandle × T) (Unit {0})
  run [] = pure tt
  run (m ∷ moves) = move m >> run moves

  module _ (stream : IsStream ts) where
    -- The octets that were written or wait in the channel grew by these.
    abbrev Grown : List ℕ → ChannelFrameSenderHandle × T → ChannelFrameSenderHandle × T → Type 0
    Grown more (handle, t) (handle', t') =
        All IsFrame handle'.tx.queue
        × (stream.written t' ++ octets_in handle'.tx.queue
            ≡ stream.written t ++ (octets_in handle.tx.queue ++ more))

    queue_frame-Grown :
        (f : HttpFrame) (w : IsWellFormed f) (handle : ChannelFrameSenderHandle) (t : T)
        → All IsFrame handle.tx.queue
        → Succeeds (Grown (octets_of f w) (handle, t)) (move (queue_frame f w) (handle, t))
    unfolding send_frame send_or send octets_of
    queue_frame-Grown f w handle t whole =
        let (h, payload, fits, len, written, recognized) = parts f w in
        elim (Bool-cases handle.tx.receiving) [
          | inl there ↦
              rw (written [], there)
                (
                  All-append IsFrame handle.tx.queue (wire h payload ∷ []) whole
                      ((h, payload, fits, refl), tt),
                  rw (octets_in-snoc handle.tx.queue (wire h payload)) refl,
                )
          | inr gone ↦ rw (written [], gone) tt
        ]

    write_next-Grown :
        (queue : List (List ℕ)) (senders : ℕ) (handle : ChannelFrameSenderHandle) (t : T)
        → handle.tx.queue ≡ queue
        → handle.tx.senders ≡ senders
        → All IsFrame queue
        → Succeeds (Grown [] (handle, t)) (move write_next (handle, t))
    unfolding send_next recv_or recv Transport.send_frame
    write_next-Grown [] zero handle t q n whole = rw (q, n) tt
    write_next-Grown [] (suc senders) handle t q n whole = rw (q, n) tt
    write_next-Grown (b ∷ rest) senders handle t q n ((h, payload, fits, same), whole) =
        let (t', done, grown) = stream.write_all_end (wire h payload) t in
        rw (q, same, raw-serialize_into h payload [] fits, done)
          (whole, rw (grown, append-nil) (append_assoc (stream.written t) (wire h payload) _))

    move-Grown :
        (m : Move) (handle : ChannelFrameSenderHandle) (t : T)
        → All IsFrame handle.tx.queue
        → Succeeds (Grown (queued_octets (m ∷ [])) (handle, t)) (move m (handle, t))
    move-Grown (queue_frame f w) handle t whole =
        rw (append-nil (octets_of f w)) (queue_frame-Grown f w handle t whole)
    move-Grown write_next handle t whole =
        write_next-Grown handle.tx.queue handle.tx.senders handle t refl refl whole

    queued_octets-cons :
        (m : Move) (moves : List Move)
        → queued_octets (m ∷ moves) ≡ queued_octets (m ∷ []) ++ queued_octets moves
    queued_octets-cons (queue_frame f w) moves = rw (append-nil (octets_of f w))
    queued_octets-cons write_next moves = refl

    -- If the buffers that wait in the channel hold a frame each, and a sequence of steps succeeds in
    -- which the connection queues well-formed frames and the thread writes buffers to a stream of
    -- octets, in any order, then the octets written followed by those that wait are those written
    -- before, followed by those that waited before and those of the frames queued, in their order.
    -- The buffers that wait hold a frame each again.
    pub run_in_order :
        (moves : List Move) (handle handle' : ChannelFrameSenderHandle) (t t' : T)
        → All IsFrame handle.tx.queue
        → run moves (handle, t) ≡ ok tt (handle', t')
        → (stream.written t' ++ octets_in handle'.tx.queue
            ≡ stream.written t ++ (octets_in handle.tx.queue ++ queued_octets moves))
          × All IsFrame handle'.tx.queue
    run_in_order [] handle handle' t t' whole done =
        let same_handle : handle ≡ handle' = cc in
        let same_stream : t ≡ t' = cc in
        rw (sym same_handle, sym same_stream, append-nil) (refl, whole)
    run_in_order (m ∷ moves) handle handle' t t' whole done =
        elim (Run-cases (move m (handle, t))) [
          | inl (a, (h1, t1), e) ↦
              let (whole1, first) =
                subst (Succeeds (Grown (queued_octets (m ∷ [])) (handle, t))) e
                  (move-Grown m handle t whole) in
              let rest : run moves (h1, t1) ≡ ok tt (handle', t') =
                sym (ap (λ r. followed_by r (λ _. run moves)) e) ∙ done in
              let (others, whole2) = run_in_order moves h1 handle' t1 t' whole1 rest in
              (
                rw (queued_octets-cons m moves) (
                    chain (stream.written t1) (octets_in h1.tx.queue) (queued_octets moves)
                      (stream.written t) (octets_in handle.tx.queue) (queued_octets (m ∷ [])) _
                      others first),
                whole2,
              )
          | inr (inl (e, w, failed)) ↦
              let stuck : err e w ≡ ok tt (handle', t') =
                sym (ap (λ r. followed_by r (λ _. run moves)) failed) ∙ done in
              absurd cc
          | inr (inr failed) ↦
              let stuck : fault ≡ ok tt (handle', t') =
                sym (ap (λ r. followed_by r (λ _. run moves)) failed) ∙ done in
              absurd cc
        ]
