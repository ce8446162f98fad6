-- ===== src/Async/System.antt =====
-- client/async.rs: the service, the two threads of the socket and the clients, step by step.
pub mod Safety
pub mod Frames
pub mod Connect
use solicit.Base.{false, ℕ, suc, ◌≡◌, List, [], ◌∷◌, ◌++◌, Option, none, some, Exec, value}
use solicit.Http.Error.{HttpError}
use solicit.Http.Run.{ok, err}
use solicit.Http.Response.{Header, HttpScheme}
use solicit.Frame.Raw.{RawFrame}
use solicit.Connection.Defs.{Hpack}
use solicit.Transport.{TransportStream, transport_send}
use solicit.Async.Channel.{Channel, send, add_sender, drop_sender}
use solicit.Async.Sender.{send_next}
use solicit.Async.Receiver.{read_next}
use solicit.Async.Service.{
  ClientService, WorkItem, handle_frame_item, send_data_item, new_client, Turn, goes_on, stops,
  new_service,
}
use solicit.Async.Service.Loop.{run_once}
use solicit.Async.Front.{Client, clone, drop, issue}

-- Where a thread of the socket is in its loop: before the next frame, between a frame and the work
-- item that it sends for it, or behind the loop.
pub data ThreadState : Type 0 where
  looping notifying halted : ThreadState

-- The channels that the service shares with the threads and the clients are those of the service.
pub record System (hpack : Hpack) (T : Type 0) : Type 0 where
  pub service : ClientService hpack
  pub reader : T
  pub writer : T
  pub reading : ThreadState
  pub writing : ThreadState

module _ {hpack : Hpack} {T : Type 0} where
  -- What a client did to the work queue.
  abbrev pub with_work : System hpack T → Channel WorkItem → System hpack T
  with_work sys queue = record sys { service = record sys.service { work_queue = queue } }

  -- The thread that writes has written a frame.
  abbrev pub after_write : System hpack T → Channel (List ℕ) → T → System hpack T
  after_write sys c t = record sys {
    service = record sys.service { send_handle = record { tx = c } };
    writer = t;
    writing = notifying;
  }

  -- It has sent the work item, and goes on.
  abbrev pub after_send_data : System hpack T → Channel WorkItem → System hpack T
  after_send_data sys queue = record sys {
    service = record sys.service { work_queue = queue };
    writing = looping;
  }

  -- An error ended its loop: its receiver and its sender of the work queue are dropped.
  abbrev pub end_write : System hpack T → Channel (List ℕ) → T → System hpack T
  end_write sys c t = record sys {
    service = record sys.service {
      send_handle = record { tx = record c { receiving = false } };
      work_queue = drop_sender sys.service.work_queue;
    };
    writer = t;
    writing = halted;
  }

  -- The thread that reads has put a frame into the channel.
  abbrev pub after_read : System hpack T → Channel RawFrame → T → System hpack T
  after_read sys c t = record sys {
    service = record sys.service { recv_handle = record sys.service.recv_handle { rx = c } };
    reader = t;
    reading = notifying;
  }

  abbrev pub after_handle_frame : System hpack T → Channel WorkItem → System hpack T
  after_handle_frame sys queue = record sys {
    service = record sys.service { work_queue = queue };
    reading = looping;
  }

  -- An error ended its loop: its senders of frames and of the work queue are dropped.
  abbrev pub end_read : System hpack T → Channel RawFrame → T → System hpack T
  end_read sys c t = record sys {
    service = record sys.service {
      recv_handle = record sys.service.recv_handle { rx = drop_sender c };
      work_queue = drop_sender sys.service.work_queue;
    };
    reader = t;
    reading = halted;
  }

  -- The channels that a step asked a response for.
  pub data Step ⦃ts : TransportStream T⦄ : List ℕ → System hpack T → System hpack T → Type 0 where
    -- the thread of the service: a turn of its loop that goes on
    serve :
        (sys : System hpack T) (s : ClientService hpack)
        → run_once sys.service ≡ goes_on s
        → Step [] sys (record sys { service = s })
    -- the thread that writes: a frame, then the work item that asks for the next data
    write :
        (sys : System hpack T) (c : Channel (List ℕ)) (t : T)
        → sys.writing ≡ looping
        → send_next (sys.service.send_handle.tx, sys.writer) ≡ ok tt (c, t)
        → Step [] sys (after_write sys c t)
    write_notifies :
        (sys : System hpack T) (queue : Channel WorkItem)
        → sys.writing ≡ notifying
        → send send_data_item sys.service.work_queue ≡ some queue
        → Step [] sys (after_send_data sys queue)
    write_ends :
        (sys : System hpack T) (e : HttpError) (c : Channel (List ℕ)) (t : T)
        → sys.writing ≡ looping
        → send_next (sys.service.send_handle.tx, sys.writer) ≡ err e (c, t)
        → Step [] sys (end_write sys c t)
    -- the thread that reads: a frame, then the work item that has it handled
    read :
        (sys : System hpack T) (c : Channel RawFrame) (t : T)
        → sys.reading ≡ looping
        → read_next (sys.service.recv_handle.rx, sys.reader) ≡ ok tt (c, t)
        → Step [] sys (after_read sys c t)
    read_notifies :
        (sys : System hpack T) (queue : Channel WorkItem)
        → sys.reading ≡ notifying
        → send handle_frame_item sys.service.work_queue ≡ some queue
        → Step [] sys (after_handle_frame sys queue)
    read_ends :
        (sys : System hpack T) (e : HttpError) (c : Channel RawFrame) (t : T)
        → sys.reading ≡ looping
        → read_next (sys.service.recv_handle.rx, sys.reader) ≡ err e (c, t)
        → Step [] sys (end_read sys c t)
    -- the clients
    issues :
        (sys : System hpack T) (tx : ℕ) (method path : List ℕ) (headers : List Header)
        (body : Option (List ℕ)) (queue : Client)
        → issue tx method path headers body sys.service.work_queue ≡ some queue
        → Step (tx ∷ []) sys (with_work sys queue)
    clones :
        (sys : System hpack T) (queue : Client)
        → clone sys.service.work_queue ≡ value queue
        → Step [] sys (with_work sys queue)
    drops : (sys : System hpack T) → Step [] sys (with_work sys (drop sys.service.work_queue))

  -- So many steps, and the channels that they asked a response for.
  pub data Steps ⦃ts : TransportStream T⦄
      : ℕ → List ℕ → System hpack T → System hpack T → Type 0 where
    none_yet : (sys : System hpack T) → Steps 0 [] sys sys
    and_then :
        (n : ℕ) (asked more : List ℕ) (before sys after : System hpack T)
        → Steps n asked before sys
        → Step more sys after
        → Steps (suc n) (more ++ asked) before after

-- `with_connector`, where the connector gave a stream and the splits of it succeeded. Each of the two
-- threads of the socket has a sender of the work queue.
module _ (hpack : Hpack) {T : Type 0} where
  abbrev pub started :
      ClientService hpack → T → T → Option (Channel WorkItem) → Option (System hpack T)
  started service reader writer none = none
  started service reader writer (some queue) = some (record {
    service = record service { work_queue = add_sender (add_sender queue) };
    reader = reader;
    writer = writer;
    reading = looping;
    writing = looping;
  })

  unfoldable pub with_connector : T → T → HttpScheme → List ℕ → Option (System hpack T)
  unfolding new_service
  with_connector receiver sender scheme host =
      let (service, tx, recv_frame, send_frame) = new_service hpack receiver sender scheme host in
      started service recv_frame.inner send_frame.inner (send new_client tx)
