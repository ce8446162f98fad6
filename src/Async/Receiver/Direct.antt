-- ===== src/Async/Receiver/Direct.antt =====
-- client/async.rs: a frame that goes through the channel is the frame of the stream.
use solicit.Base.{◌≡◌, refl, true, [], inl, inr, ◌++◌}
use solicit.Http.Error.{success, failure}
use solicit.Http.Run.{Run, ok, err, fault, M, ◌>>◌}
use solicit.Connection.Keeps.{Run-cases, Exec-cases}
use solicit.Frame.Header.{unpack_header}
use solicit.Frame.Raw.{RawFrame, raw_from}
use solicit.Connection.HttpFrame.{HttpFrame, from_raw}
use solicit.Connection.Send.{on_first}
use solicit.Transport.{TransportStream, read_exact, from_result}
use solicit.Transport
use solicit.Async.Channel.{Channel, send_or, recv_or, send, recv}
use solicit.Async.Receiver.{ChannelFrameReceiverHandle, read_next, recv_frame}

-- What a step did to the second half of the state.
abbrev pub second_of : {W V A : Type 0} → Run (W × V) A → Run V A
second_of (ok a (w, v)) = ok a v
second_of (err e (w, v)) = err e v
second_of fault = fault

-- A turn of the reading thread and then one of the handle.
abbrev pub with_rx :
    ChannelFrameReceiverHandle
    → {T : Type 0} → Run (Channel RawFrame × T) (Unit {0})
    → Run (ChannelFrameReceiverHandle × T) (Unit {0})
with_rx handle (ok a (c, t)) = ok a (record handle { rx = c }, t)
with_rx handle (err e (c, t)) = err e (record handle { rx = c }, t)
with_rx handle fault = fault

module _ {T : Type 0} ⦃ts : TransportStream T⦄ where
  abbrev pub read_and_receive : M (ChannelFrameReceiverHandle × T) HttpFrame
  read_and_receive = do
    (λ (handle, t). with_rx handle (read_next (handle.rx, t)))
    on_first recv_frame

  -- Reading a frame into the empty channel, whose receiver is there, and taking it out gives what
  -- `recv_frame` gives of the stream itself: the frame, the error, or the panic, and the same stream.
  pub recv_frame-read_next :
      (handle : ChannelFrameReceiverHandle) (t : T)
      → handle.rx.queue ≡ []
      → handle.rx.receiving ≡ true
      → second_of (read_and_receive (handle, t)) ≡ Transport.recv_frame t
  unfolding read_next recv_frame Transport.recv_frame send_or recv_or send recv
  recv_frame-read_next handle t empty alive = elim (Run-cases (read_exact 9 t)) [
    | inl (head, t1, e1) ↦ elim (Exec-cases (unpack_header head)) [
      | inl (h, e2) ↦ elim (Run-cases (read_exact h.0 t1)) [
        | inl (payload, t2, e3) ↦ elim (Exec-cases (from_raw (raw_from (head ++ payload)))) [
          | inl (success f, e4) ↦ rw (e1, e2, e3, alive, empty, e4) refl
          | inl (failure f, e4) ↦ rw (e1, e2, e3, alive, empty, e4) refl
          | inr e4 ↦ rw (e1, e2, e3, alive, empty, e4) refl
        ]
        | inr (inl (e, t2, e3)) ↦ rw (e1, e2, e3) refl
        | inr (inr e3) ↦ rw (e1, e2, e3) refl
      ]
      | inr e2 ↦ rw (e1, e2) refl
    ]
    | inr (inl (e, t1, e1)) ↦ rw e1 refl
    | inr (inr e1) ↦ rw e1 refl
  ]
