-- ===== src/Tests/Simple.antt =====
-- client/simple.rs and server/mod.rs at concrete ends.
use solicit.Base.{ℕ, ◌<◌, ◌≤◌, ◌≡◌, ◌≢◌, refl, arith, true, false, List, [], ◌∷◌, none, some, drop}
use solicit.Http.Run.{ok, fault, ◌>>◌}
use solicit.Http.Response.{HttpScheme, Response}
use solicit.Session.Stream.{
  DefaultStream, default_stream, open_both, half_closed_remote, closed, is_closed,
}
use solicit.Session.State.{SessionState, server_state, odd, even, lookup, get_stream_ref}
use solicit.Connection.Defs.{HttpConnection}
use solicit.Connection.Repeat.{Ends}
use solicit.SimpleClient.{SimpleClient, send_body, get_response}
use solicit.SimpleClient
use solicit.SimpleClient.Body.{NothingLeft, send_body-Ends}
use solicit.SimpleClient.Await.{over, another, get_response-Responds}
use solicit.SimpleServer.{
  ServerRequest, SimpleServer, flush_streams, reap_streams, handle_next_frame, handle_next,
}
use solicit.SimpleServer.Flush.{Unanswered}
use solicit.SimpleServer.Answers.{Good, reap_streams-flush_streams}
use solicit.SimpleServer.Serving.{Serving, no_frame, one_more, handle_next_serves}
use solicit.Tests.Codec.{plain}
use solicit.Tests.Pipe.{Pipe, start, pipe}
use solicit.Base.Int.{pos}

abbrev pub conn : HttpConnection plain
conn = record {
  decoder = tt;
  encoder = tt;
  out_window_size = record { size = pos 65535 };
  in_window_size = record { size = pos 65535 };
  scheme = HttpScheme.http;
}

pipe_writes : (bytes : List ℕ) (t : Pipe) → pipe.write_all bytes t ≢ fault
pipe_writes bytes t e = absurd cc

-- A stream with a response of one octet to send.
abbrev answered_stream : DefaultStream
answered_stream = record {
  stream_id = some 1;
  headers = some [];
  body = [];
  state = half_closed_remote;
  outgoing = some (record { buffer = 65 ∷ []; position = 0 });
}

abbrev server : SimpleServer plain Pipe (Unit {0})
server = record {
  conn = record {
    conn = conn;
    state = record {
      streams = (1, answered_stream) ∷ [];
      next_stream_id = 2;
      outgoing_parity = even;
    };
  };
  receiver = start [];
  sender = start [];
  handler = tt;
}

server-Good : Good plain pipe_writes server
unfolding lookup
server-Good = (((omega arith, λ r e. absurd cc), tt), (refl, tt))

reap_streams-flush_streams_example : Ends Unanswered ((flush_streams >> reap_streams) server)
reap_streams-flush_streams_example = reap_streams-flush_streams plain pipe_writes server server-Good

abbrev pub client : Pipe → DefaultStream → SimpleClient plain Pipe
client receiver stream = record {
  conn = record {
    conn = conn;
    state = record { streams = (1, stream) ∷ []; next_stream_id = 3; outgoing_parity = odd };
  };
  host = [];
  receiver = receiver;
  sender = start [];
}

send_body-Ends_example :
    Ends (NothingLeft plain pipe_writes) (send_body (client (start []) answered_stream))
send_body-Ends_example =
    send_body-Ends plain pipe_writes (client (start []) answered_stream) ((omega arith, tt), tt)

abbrev pub waiting_stream : DefaultStream
waiting_stream = record answered_stream { state = open_both }

abbrev reset_stream : DefaultStream
reset_stream = record answered_stream { state = closed }

-- An RST_STREAM frame with the error code CANCEL.
abbrev reset_octets : List ℕ
reset_octets = 0 ∷ 0 ∷ 4 ∷ 3 ∷ 0 ∷ 0 ∷ 0 ∷ 0 ∷ 1 ∷ 0 ∷ 0 ∷ 0 ∷ 8 ∷ []

reset_lem :
    SimpleClient.handle_next_frame (client (start reset_octets) waiting_stream)
    ≡ ok tt (client (start []) reset_stream)
unfolding SimpleClient.handle_next_frame solicit.Client.handle_next_frame
    solicit.Connection.Handle.handle_next_frame solicit.Transport.recv_frame
    solicit.Transport.read_exact solicit.Transport.read_loop solicit.Frame.Header.unpack_header
    solicit.Base.join_3 solicit.Connection.HttpFrame.from_raw solicit.Frame.Raw.header
    solicit.Frame.RstStream.from_raw solicit.Base.clear_top_bit solicit.Base.join_4
    solicit.Frame.Raw.payload solicit.Client.on_stream solicit.Session.State.change_stream
    solicit.Session.State.update solicit.Frame.RstStream.get_stream_id
reset_lem = refl

waiting_found : get_stream_ref (client (start []) waiting_stream).conn.state 1 ≡ some waiting_stream
unfolding get_stream_ref lookup
waiting_found = refl

reset_found : get_stream_ref (client (start []) reset_stream).conn.state 1 ≡ some reset_stream
unfolding get_stream_ref lookup
reset_found = refl

waiting_open : is_closed waiting_stream ≡ false
unfolding is_closed
waiting_open = refl

reset_closed : is_closed reset_stream ≡ true
unfolding is_closed
reset_closed = refl

get_response-Responds_example :
    get_response 5 1 (client (start reset_octets) waiting_stream)
    ≡ ok (record { stream_id = 1; headers = []; body = [] }) (client (start []) reset_stream)
get_response-Responds_example =
    get_response-Responds 1 5 1 (client (start reset_octets) waiting_stream)
      (client (start []) reset_stream) reset_stream (omega arith)
      (another 0 (client (start reset_octets) waiting_stream) (client (start []) reset_stream)
        (client (start []) reset_stream) waiting_stream waiting_found waiting_open reset_lem
        (over (client (start []) reset_stream)))
      reset_found reset_closed

-- Requests on two streams, with no headers and no body.
abbrev pub requests : List ℕ
requests = 0 ∷ 0 ∷ 1 ∷ 1 ∷ 5 ∷ 0 ∷ 0 ∷ 0 ∷ 1 ∷ 0 ∷ 0 ∷ 0 ∷ 1 ∷ 1 ∷ 5 ∷ 0 ∷ 0 ∷ 0 ∷ 3 ∷ 0 ∷ []

-- A server between frames, with no streams.
abbrev pub idle : List ℕ → List ℕ → ℕ → SimpleServer plain Pipe (Unit {0})
idle unread written window = record {
  conn = record {
    conn = record conn { out_window_size = record { size = pos window } };
    state = record { streams = []; next_stream_id = 2; outgoing_parity = even };
  };
  receiver = start unread;
  sender = record { unread = []; written = written };
  handler = tt;
}

abbrev pub one_octet : ServerRequest → Unit {0} → Response × Unit {0}
one_octet r h = (record { headers = []; stream_id = r.stream_id; body = 65 ∷ [] }, h)

abbrev pub answer : List ℕ
answer = 0 ∷ 0 ∷ 1 ∷ 1 ∷ 4 ∷ 0 ∷ 0 ∷ 0 ∷ 1 ∷ 0 ∷ 0 ∷ 0 ∷ 1 ∷ 0 ∷ 1 ∷ 0 ∷ 0 ∷ 0 ∷ 1 ∷ 65 ∷ []

idle_state : (idle requests [] 65535).conn.state ≡ server_state DefaultStream
unfolding server_state
idle_state = refl

pub first_request :
    handle_next one_octet (idle requests [] 65535) ≡ ok tt (idle (drop 10 requests) answer 65534)
unfolding handle_next solicit.Server.handle_next_frame solicit.Connection.Handle.handle_next_frame
    solicit.Transport.recv_frame solicit.Transport.read_exact solicit.Transport.read_loop
    solicit.Frame.Header.unpack_header solicit.Base.join_3 solicit.Connection.HttpFrame.from_raw
    solicit.Frame.Raw.header solicit.Frame.Headers.from_raw solicit.Frame.Raw.payload
    solicit.Base.clear_top_bit solicit.Base.join_4 solicit.Frame.Raw.has_flag
    solicit.Server.new_headers get_stream_ref solicit.Session.State.lookup
    solicit.Frame.Headers.is_end_of_stream solicit.Server.on_stream
    solicit.Session.State.change_stream solicit.Session.State.update
    solicit.Session.State.insert_incoming solicit.Session.State.validate_incoming_parity
    solicit.Session.State.parity_of solicit.Frame.Headers.get_stream_id solicit.Session.State.insert
    solicit.Session.Stream.is_closed_remote solicit.Session.Stream.close_remote
    solicit.Session.State.remove_all solicit.Session.State.closed_ids is_closed
    solicit.Session.State.remove solicit.Frame.Builder.write_all solicit.Frame.Builder.write_header
    solicit.Frame.Header.pack_header solicit.Base.octet solicit.Tests.Codec.encode_all
    solicit.Frame.Headers.payload_len solicit.Session.Stream.default_set_headers
    solicit.Session.Stream.with_id solicit.Server.start_response
    solicit.Connection.Send.send_headers solicit.Transport.send_frame
    solicit.Frame.Headers.serialize_into solicit.Frame.Headers.write_dependency
    solicit.Connection.Send.headers_frame solicit.Frame.Headers.set_flag solicit.Frame.Raw.with_flag
    solicit.Frame.Headers.new solicit.Connection.Repeat.repeat solicit.Server.send_next_data
    solicit.Connection.Send.send_next_data solicit.Client.simple_prioritizer
    solicit.Priority.get_next_chunk solicit.Session.Stream.is_closed_local
    solicit.Connection.Send.send_data solicit.Http.Window.try_decrease
    solicit.Frame.Data.payload_len solicit.Connection.Send.chunk_frame solicit.Frame.Data.set_flag
    solicit.Frame.Data.with_data solicit.Frame.Data.serialize_into solicit.Session.State.get_closed
    solicit.Session.Stream.set_full_data solicit.Session.Stream.default_get_data_chunk
first_request = refl

first_taken : handle_next_frame (idle (drop 10 requests) answer 65534) ≢ fault
unfolding handle_next_frame solicit.Server.handle_next_frame
    solicit.Connection.Handle.handle_next_frame solicit.Transport.recv_frame
    solicit.Transport.read_exact solicit.Transport.read_loop solicit.Frame.Header.unpack_header
    solicit.Base.join_3 solicit.Connection.HttpFrame.from_raw solicit.Frame.Raw.header
    solicit.Frame.Headers.from_raw solicit.Frame.Raw.payload solicit.Base.clear_top_bit
    solicit.Base.join_4 solicit.Frame.Raw.has_flag solicit.Server.new_headers get_stream_ref
    solicit.Session.State.lookup solicit.Frame.Headers.is_end_of_stream solicit.Server.on_stream
    solicit.Session.State.change_stream solicit.Session.State.update
    solicit.Session.State.insert_incoming solicit.Session.State.validate_incoming_parity
    solicit.Session.State.parity_of solicit.Frame.Headers.get_stream_id solicit.Session.State.insert
    solicit.Session.Stream.is_closed_remote solicit.Session.Stream.close_remote
    solicit.Session.State.remove_all solicit.Session.State.closed_ids
first_taken e = absurd cc

handle_next_serves_example :
    Ends
      (Serving plain pipe_writes one_octet (λ r h. refl))
      (handle_next one_octet (idle (drop 10 requests) answer 65534))
handle_next_serves_example =
    handle_next_serves plain pipe_writes one_octet (λ r h. refl) (idle requests [] 65535)
      (idle (drop 10 requests) answer 65534) idle_state
      (one_more (idle requests [] 65535) (idle (drop 10 requests) answer 65534) no_frame
        first_request)
      first_taken
