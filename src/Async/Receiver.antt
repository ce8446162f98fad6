-- ===== src/Async/Receiver.antt =====
-- client/async.rs: frames that a thread reads and queues for the connection.
pub mod Direct
use solicit.Base.{◌++◌, Option, none, some}
use solicit.Http.Error.{HttpError, io_error}
use solicit.Http.Run.{Run, ok, err, fault, M, ◌>>=◌, lift}
use solicit.Frame.Header.{unpack_header}
use solicit.Frame.Raw.{RawFrame, raw_from}
use solicit.Connection.HttpFrame.{HttpFrame, from_raw}
use solicit.Connection.Defs.{ReceiveFrame}
use solicit.Connection.Send.{on_first, on_second}
use solicit.Transport.{TransportStream, read_exact, from_result}
use solicit.Async.Channel.{Channel, channel, send_or, recv_or}

-- The error "Unable to read frame", of kind `Other`.
abbrev pub unable_to_read : HttpError
unable_to_read = io_error 2

pub record ChannelFrameReceiver (T : Type 0) : Type 0 where
  pub tx : Channel RawFrame
  pub inner : T

-- `raw` is the frame that was taken last.
pub record ChannelFrameReceiverHandle : Type 0 where
  pub rx : Channel RawFrame
  pub raw : Option RawFrame

unfoldable pub new : {T : Type 0} → T → ChannelFrameReceiver T × ChannelFrameReceiverHandle
unfolding channel
new inner = (record { tx = channel; inner = inner }, record { rx = channel; raw = none })

-- The work of the thread that reads. The buffer has the header in front of the octets behind it.
module _ {T : Type 0} ⦃ts : TransportStream T⦄ where
  unfoldable pub read_next : M (Channel RawFrame × T) (Unit {0})
  unfolding read_exact send_or
  read_next = do
    raw_header ← on_second (read_exact 9)
    header ← lift (unpack_header raw_header)
    payload ← on_second (read_exact header.0)
    on_first (send_or unable_to_read (raw_from (raw_header ++ payload)))

-- `ChannelFrameReceiverHandle::recv_frame`
abbrev pub taken :
    Option RawFrame → Run (Channel RawFrame) RawFrame → Run ChannelFrameReceiverHandle RawFrame
taken before (ok raw c) = ok raw (record { rx = c; raw = some raw })
taken before (err e c) = err e (record { rx = c; raw = before })
taken before fault = fault

unfoldable pub recv_frame : M ChannelFrameReceiverHandle HttpFrame
unfolding recv_or
recv_frame = do
  raw ← λ handle. taken handle.raw (recv_or unable_to_read handle.rx)
  result ← lift (from_raw raw)
  from_result result

instance abbrev pub channel_receive : ReceiveFrame ChannelFrameReceiverHandle
channel_receive = record { recv_frame = recv_frame }
