-- ===== src/Async/Service.antt =====
-- client/async.rs: the service that issues the requests of all clients.
pub mod Requests
pub mod Loop
pub mod Chans
pub mod Invariant
pub mod Backlog
pub mod Totality
use solicit.Base.{
  ℕ, ◌+◌, ◌-◌, ◌%◌, ◌^◌, Bool, true, false, List, [], ◌∷◌, ◌++◌, Option, none, some, Exec, value,
  panic, ◌>>=◌, unwrap, ltb, ◌==◌, if◌then◌else◌,
}
use solicit.Base.Int.{ℤ, pos, negsuc, ◌+ℤ◌, ◌-ℤ◌, wrap_i32}
use solicit.Http.Error.{HttpError}
use solicit.Http.Run.{Run, ok, err, fault, M}
use solicit.Http.Response.{Header, new_header, as_bytes, Response, HttpScheme}
use solicit.Session.Stream.{DefaultStream, default_stream, set_full_data, close_local}
use solicit.Session.Stream
use solicit.Session.State.{
  SessionState, client_state, lookup, insert, remove, get_stream_ref, change_stream, get_closed,
}
use solicit.Connection.Defs.{Hpack}
use solicit.Connection.Defs
use solicit.Connection.Send.{on_second}
use solicit.Client.{ClientConnection, World, RequestStream, with_connection}
use solicit.Client
use solicit.Client.Names.{method_name, path_name, authority_name, scheme_name}
use solicit.Async.Channel.{Channel, channel, Received, received, disconnected, waiting, recv}
use solicit.Async.Sender.{ChannelFrameSenderHandle, ChannelFrameSender, channel_send}
use solicit.Async.Sender
use solicit.Async.Receiver.{ChannelFrameReceiverHandle, ChannelFrameReceiver, channel_receive}
use solicit.Async.Receiver

-- `tx` is the sender of the channel for the response; a number tells these channels apart.
pub record AsyncRequest : Type 0 where
  pub method : List ℕ
  pub path : List ℕ
  pub headers : List Header
  pub body : Option (List ℕ)
  pub tx : ℕ

pub data WorkItem : Type 0 where
  request : AsyncRequest → WorkItem
  handle_frame_item send_data_item new_client client_left : WorkItem

-- `answered` is no field of the source: it is what was sent on the channels for the responses so
-- far, each response with its channel. Whether its receiver is there makes no difference.
pub record ClientService (hpack : Hpack) : Type 0 where
  pub outstanding_reqs : ℕ
  pub limit : ℕ
  pub conn : ClientConnection hpack DefaultStream
  pub recv_handle : ChannelFrameReceiverHandle
  pub send_handle : ChannelFrameSenderHandle
  pub chans : List (ℕ × ℕ)
  pub work_queue : Channel WorkItem
  pub request_queue : List AsyncRequest
  pub client_count : ℤ
  pub host : List ℕ
  pub initialized : Bool
  pub answered : List (ℕ × Response)

pub data ClientServiceErr : Type 0 where
  done : ClientServiceErr
  http : HttpError → ClientServiceErr

-- `Result<(), ClientServiceErr>` of a method that changes the service. `waits` is a call that blocks
-- for there is no work, and `panics` one that panics.
pub data Turn (W : Type 0) : Type 0 where
  goes_on : W → Turn W
  stops : ClientServiceErr → W → Turn W
  waits panics : Turn W

-- The service, with the sender of its work queue and the adapters for the two threads.
unfoldable pub new_service :
    {T : Type 0} (hpack : Hpack)
    → T
    → T
    → HttpScheme
    → List ℕ
    → ClientService hpack × Channel WorkItem × ChannelFrameReceiver T × ChannelFrameSender T
unfolding channel with_connection Sender.new Receiver.new client_state
new_service hpack receiver sender scheme host =
    let (recv_frame, recv_handle) = Receiver.new receiver in
    let (send_frame, send_handle) = Sender.new sender in
    (
      record {
        outstanding_reqs = 0;
        limit = 3;
        conn = with_connection (Defs.new hpack scheme) (client_state DefaultStream);
        recv_handle = recv_handle;
        send_handle = send_handle;
        chans = [];
        work_queue = channel;
        request_queue = [];
        client_count = pos 0;
        host = host;
        initialized = false;
        answered = [];
      },
      channel,
      recv_frame,
      send_frame,
    )

module _ {hpack : Hpack} where
  -- A method of the connection, given the two handles.
  abbrev pub put_back :
      {A : Type 0}
      → ClientService hpack
      → Run (ChannelFrameReceiverHandle × World hpack DefaultStream ChannelFrameSenderHandle) A
      → Run (ClientService hpack) A
  put_back s (ok a (rx, ((st, tx), c))) =
      ok a (record s { recv_handle = rx; send_handle = tx; conn = record { conn = c; state = st } })
  put_back s (err e (rx, ((st, tx), c))) =
      err e
        (record s { recv_handle = rx; send_handle = tx; conn = record { conn = c; state = st } })
  put_back s fault = fault

  unfoldable pub on_conn :
      {A : Type 0}
      → M (ChannelFrameReceiverHandle × World hpack DefaultStream ChannelFrameSenderHandle) A
      → M (ClientService hpack) A
  on_conn m s = put_back s (m (s.recv_handle, ((s.conn.state, s.send_handle), s.conn.conn)))
