-- ===== src/Async/Sender.antt =====
-- client/async.rs: frames that are queued for a thread that writes them.
pub mod Order
use solicit.Base.{ℕ, List, []}
use solicit.Http.Error.{HttpError, io_error}
use solicit.Http.Run.{Run, ok, err, fault, M, ◌>>=◌, ◌>>◌, lift}
use solicit.Frame.Raw.{raw_from}
use solicit.Frame.Raw
use solicit.Connection.Defs.{FrameIr, SendFrame}
use solicit.Connection.Send.{on_first, on_second}
use solicit.Async.Channel.{Channel, channel, send_or, recv_or}

-- The error "Unable to send frame", of kind `Other`.
abbrev pub unable_to_send : HttpError
unable_to_send = io_error 1

-- The two ends share one channel, whose state stands for both.
pub record ChannelFrameSenderHandle : Type 0 where
  pub tx : Channel (List ℕ)

pub record ChannelFrameSender (S : Type 0) : Type 0 where
  pub rx : Channel (List ℕ)
  pub inner : S

unfoldable pub new : {S : Type 0} → S → ChannelFrameSender S × ChannelFrameSenderHandle
unfolding channel
new inner = (record { rx = channel; inner = inner }, record { tx = channel })

-- `ChannelFrameSenderHandle::send_frame`
abbrev pub queued : Run (Channel (List ℕ)) (Unit {0}) → Run ChannelFrameSenderHandle (Unit {0})
queued (ok a c) = ok a (record { tx = c })
queued (err e c) = err e (record { tx = c })
queued fault = fault

unfoldable pub send_frame : FrameIr → M ChannelFrameSenderHandle (Unit {0})
unfolding send_or
send_frame frame = do
  buf ← lift (frame (record { buffer = []; position = 0 }))
  λ handle. queued (send_or unable_to_send buf.buffer handle.tx)

instance abbrev pub channel_send : SendFrame ChannelFrameSenderHandle
channel_send = record { send_frame = send_frame }

-- The work of the thread that writes: the next buffer goes out as a raw frame.
module _ {S : Type 0} ⦃tx : SendFrame S⦄ where
  unfoldable pub send_next : M (Channel (List ℕ) × S) (Unit {0})
  unfolding recv_or
  send_next = do
    frame_buffer ← on_first (recv_or unable_to_send)
    on_second (tx.send_frame (Raw.serialize_into (raw_from frame_buffer)))
