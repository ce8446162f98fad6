-- ===== src/Tests/Asynchronous.antt =====
-- client/async.rs at a concrete client over a pipe.
use solicit.Base.{
  ℕ, ◌≢◌, value, ◌+◌, ◌-◌, ◌^◌, ◌<◌, ◌≡◌, refl, arith, true, List, [], ◌∷◌, ◌++◌, none, some,
  length, All,
}
use solicit.Base.Int.{pos, ◌+ℤ◌}
use solicit.Http.Run.{ok}
use solicit.Http.Response.{HttpScheme}
use solicit.Session.State.{odd, lookup, insert, insert_outgoing, get_stream_ref}
use solicit.Session.Stream
use solicit.Session.Stream.{
  DefaultStream, default_stream, closed, is_closed, is_closed_local, close_local,
}
use solicit.Frame.Headers
use solicit.Frame.Raw.{RawFrame, raw_from, has_flag, with_flag}
use solicit.Connection.Send.{send_headers, headers_frame}
use solicit.Client
use solicit.Async.Channel.{add_sender, Channel, channel, send, send_or, recv, received}
use solicit.Async.Service.{
  ClientService, WorkItem, Turn, goes_on, new_service, new_client, request, handle_frame_item,
}
use solicit.Async.Service.Loop.{run_once, run_item}
use solicit.Async.Service.Chans.{count}
use solicit.Async.Service.Invariant.{Inv, accounted, Kept}
use solicit.Async.Service.Invariant.Turns.{AfterTurn, run_once-Kept, same_core}
use solicit.Async.Front.{issue}
use solicit.Async.Sender.{ChannelFrameSenderHandle, send_frame, send_next}
use solicit.Async.Sender.Order.{
  Move, queue_frame, write_next, run, octets_in, queued_octets, IsFrame, run_in_order,
}
use solicit.Async.Receiver.{ChannelFrameReceiverHandle, read_next}
use solicit.Async.Receiver.Direct.{second_of, read_and_receive, recv_frame-read_next}
use solicit.Connection.HttpFrame.{settings_frame}
use solicit.Frame.Settings
use solicit.Server.Handshake.{ack-IsWellFormed}
use solicit.Transport
use solicit.Client.{with_connection}
use solicit.Session.State.{client_state}
use solicit.Async.Sender
use solicit.Async.Receiver
use solicit.Async.System.{
  System, looping, Steps, serve, read, read_notifies, issues, after_read, after_handle_frame,
  none_yet, and_then, with_work, with_connector,
}
use solicit.Async.System.Safety.{new_service-Kept, with_connector_safe}
use solicit.Async.System.Frames.{with_connector_ready}
use solicit.Async.Service.Requests.{handle_closed}
use solicit.Async.Service.Totality.{handle_closed_total}
use solicit.Tests.Codec.{encode_all, plain}
use solicit.Tests.Pipe.{Pipe, start, pipe, pipe-IsStream}

abbrev fresh : ClientService plain
fresh = (new_service plain (start []) (start []) HttpScheme.http []).0

abbrev begun : System plain Pipe
begun = record {
  service = record fresh {
    work_queue = record { queue = new_client ∷ []; senders = 3; receiving = true };
  };
  reader = start [];
  writer = start [];
  reading = looping;
  writing = looping;
}

begun_lem : with_connector plain (start []) (start []) HttpScheme.http [] ≡ some begun
unfolding with_connector new_service channel send add_sender Sender.new Receiver.new
begun_lem = refl

abbrev asked_queue : Channel WorkItem
asked_queue = record {
  queue =
      new_client
      ∷ request (record { method = 0x47 ∷ []; path = 0x2f ∷ []; headers = []; body = none; tx = 7 })
      ∷ [];
  senders = 3;
  receiving = true;
}

asked_lem : issue 7 (0x47 ∷ []) (0x2f ∷ []) [] none begun.service.work_queue ≡ some asked_queue
unfolding issue send
asked_lem = refl

abbrev counted : ClientService plain
counted = record fresh {
  client_count = pos 1;
  work_queue = record asked_queue {
    queue =
        request (record { method = 0x47 ∷ []; path = 0x2f ∷ []; headers = []; body = none; tx = 7 })
        ∷ [];
  };
}

counted_lem : run_once (with_work begun asked_queue).service ≡ goes_on counted
unfolding run_once run_item recv new_service Sender.new Receiver.new channel ◌+ℤ◌
counted_lem = refl

-- The service after a turn that goes on.
abbrev after_turn : {W : Type 0} → Turn W → W → W
after_turn (goes_on s) w = s
after_turn _ w = w

abbrev sent_service : ClientService plain
sent_service = after_turn (run_once counted) counted

sent_lem : run_once counted ≡ goes_on sent_service
unfolding run_once run_item recv new_service Client.start_request send_headers Sender.send_frame
    Headers.serialize_into Headers.write_dependency has_flag headers_frame is_closed_local
    close_local Stream.new Headers.set_flag with_flag Headers.new get_stream_ref lookup
    insert_outgoing insert encode_all send send_or
sent_lem = refl

fresh-Inv : Inv fresh
unfolding new_service
fresh-Inv = (new_service-Kept 7 (start []) (start []) HttpScheme.http []).0

counted-Inv : Inv counted
counted-Inv = same_core fresh counted fresh-Inv refl refl refl refl

next_small : counted.conn.state.next_stream_id + 2 < 2 ^ 32
unfolding new_service client_state with_connection
next_small = omega arith

run_once-Kept_example :
    AfterTurn
      (Kept 7 (accounted 7 counted) (counted.conn.state.next_stream_id + 2))
      (run_once counted)
run_once-Kept_example = run_once-Kept 7 counted counted-Inv next_small

abbrev later : System plain Pipe
later = record begun { service = sent_service }

three-Steps : Steps 3 (7 ∷ []) begun later
three-Steps =
    and_then 2 (7 ∷ []) [] begun (record begun { service = counted }) later
      (and_then 1 (7 ∷ []) [] begun (with_work begun asked_queue)
        (record begun { service = counted })
        (and_then 0 [] (7 ∷ []) begun begun (with_work begun asked_queue) (none_yet begun)
          (issues begun 7 (0x47 ∷ []) (0x2f ∷ []) [] none asked_queue asked_lem))
        (serve (with_work begun asked_queue) counted counted_lem))
      (serve (record begun { service = counted }) sent_service sent_lem)

with_connector_safe_example : Inv sent_service × (accounted 7 sent_service ≡ count 7 (7 ∷ []))
with_connector_safe_example =
    with_connector_safe 7 3 (7 ∷ []) (start []) (start []) HttpScheme.http [] begun later
      (omega arith) begun_lem three-Steps

abbrev empty_handle : ChannelFrameSenderHandle
empty_handle = record { tx = record { queue = []; senders = 1; receiving = true } }

abbrev moves : List Move
moves = queue_frame (settings_frame Settings.new_ack) ack-IsWellFormed ∷ write_next ∷ []

abbrev written_pipe : Pipe
written_pipe = record { unread = []; written = 0 ∷ 0 ∷ 0 ∷ 4 ∷ 1 ∷ 0 ∷ 0 ∷ 0 ∷ 0 ∷ [] }

moves_lem : run moves (empty_handle, start []) ≡ ok tt (empty_handle, written_pipe)
unfolding send_frame send_next solicit.Connection.HttpFrame.serialize_into Settings.serialize_into
    Transport.send_frame solicit.Frame.Raw.serialize_into Settings.write_settings Settings.new_ack
    solicit.Frame.Builder.write_header solicit.Frame.Builder.write_all
    solicit.Frame.Header.pack_header solicit.Frame.Header.unpack_header solicit.Base.octet
    solicit.Base.join_3 solicit.Base.clear_top_bit Settings.payload_len solicit.Base.join_4
moves_lem = refl

run_in_order_example :
    (written_pipe.written ++ octets_in empty_handle.tx.queue
      ≡ [] ++ (octets_in empty_handle.tx.queue ++ queued_octets moves))
    × All IsFrame empty_handle.tx.queue
run_in_order_example =
    run_in_order pipe-IsStream moves empty_handle empty_handle (start []) written_pipe tt moves_lem

abbrev empty_receiver : ChannelFrameReceiverHandle
empty_receiver = record { rx = record { queue = []; senders = 1; receiving = true }; raw = none }

abbrev incoming : Pipe
incoming = start (0 ∷ 0 ∷ 0 ∷ 9 ∷ 0 ∷ 0 ∷ 0 ∷ 0 ∷ 1 ∷ [])

recv_frame-read_next_example :
    second_of (read_and_receive (empty_receiver, incoming)) ≡ Transport.recv_frame incoming
recv_frame-read_next_example = recv_frame-read_next empty_receiver incoming refl refl

-- A client to which a frame comes once the service counted it.
abbrev reached : System plain Pipe
reached = record begun { reader = incoming }

reached_lem : with_connector plain incoming (start []) HttpScheme.http [] ≡ some reached
unfolding with_connector new_service channel send add_sender Sender.new Receiver.new
reached_lem = refl

abbrev idle : ClientService plain
idle = record fresh {
  client_count = pos 1;
  work_queue = record { queue = []; senders = 3; receiving = true };
}

idle_lem : run_once reached.service ≡ goes_on idle
unfolding run_once run_item recv new_service Sender.new Receiver.new channel ◌+ℤ◌
idle_lem = refl

abbrev due : Channel WorkItem
due = record { queue = handle_frame_item ∷ []; senders = 3; receiving = true }

abbrev filled : Channel RawFrame
filled = record {
  queue = raw_from (0 ∷ 0 ∷ 0 ∷ 9 ∷ 0 ∷ 0 ∷ 0 ∷ 0 ∷ 1 ∷ []) ∷ [];
  senders = 1;
  receiving = true;
}

filled_lem : read_next (idle.recv_handle.rx, incoming) ≡ ok tt (filled, start [])
unfolding read_next send_or new_service Transport.read_loop solicit.Frame.Header.unpack_header
    solicit.Base.join_3
filled_lem = refl

due_lem : send handle_frame_item idle.work_queue ≡ some due
unfolding send
due_lem = refl

abbrev counted_reached : System plain Pipe
counted_reached = record reached { service = idle }

-- The frame is in the channel, and the service is not told yet.
abbrev got_frame : System plain Pipe
got_frame = after_read counted_reached filled (start [])

abbrev notified : System plain Pipe
notified = after_handle_frame got_frame due

three_more-Steps : Steps 3 [] reached notified
three_more-Steps =
    and_then 2 [] [] reached got_frame notified
      (and_then 1 [] [] reached counted_reached got_frame
        (and_then 0 [] [] reached reached counted_reached (none_yet reached)
          (serve reached idle idle_lem))
        (read counted_reached filled (start []) refl filled_lem))
      (read_notifies got_frame due refl due_lem)

next_lem : recv due ≡ received handle_frame_item (record due { queue = [] })
unfolding recv
next_lem = refl

with_connector_ready_example :
    (raw : RawFrame) × (c : Channel RawFrame) × (recv filled ≡ received raw c)
with_connector_ready_example =
    with_connector_ready 3 [] incoming (start []) HttpScheme.http [] reached notified
      (record due { queue = [] }) reached_lem three_more-Steps next_lem

abbrev answer : DefaultStream
answer = record {
  stream_id = some 1;
  headers = some [];
  body = 1 ∷ [];
  state = closed;
  outgoing = none;
}

-- A service whose only request was answered.
abbrev answered_service : ClientService plain
answered_service = record fresh {
  outstanding_reqs = 1;
  conn = record fresh.conn {
    state = record { streams = (1, answer) ∷ []; next_stream_id = 3; outgoing_parity = odd };
  };
  chans = (1, 7) ∷ [];
}

answered-Inv : Inv answered_service
unfolding new_service lookup
answered-Inv = record {
  labelled = refl;
  distinct = (refl, tt);
  below = (omega arith, tt);
  counted = refl;
  bounded = omega arith;
  small = omega arith;
}

answer-headers :
    (i : ℕ) (stream : DefaultStream)
    → lookup i answered_service.conn.state.streams ≡ some stream
    → is_closed stream ≡ true
    → stream.headers ≢ none
unfolding lookup
answer-headers i stream found shut missing = ground arith

handle_closed_total_example :
    (s' : ClientService plain) × (handle_closed answered_service ≡ value s')
    × Kept 7 (accounted 7 answered_service) 3 s'
handle_closed_total_example = handle_closed_total 7 answered_service answered-Inv answer-headers
