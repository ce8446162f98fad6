-- ===== src/Tests/Answer.antt =====
-- server/mod.rs and client/simple.rs: a response at concrete ends.
use solicit.Base.{
  ℕ, ◌+◌, ◌<◌, ◌≡◌, refl, arith, List, [], ◌∷◌, ◌++◌, drop, none, some, false, value,
}
use solicit.Http.Run.{ok}
use solicit.Http.Response.{Response}
use solicit.Session.Stream.{DefaultStream, default_stream, half_closed_remote, is_closed}
use solicit.Session.State.{SessionState, even, get_stream_ref, lookup}
use solicit.SimpleClient.{SimpleClient, get_response}
use solicit.SimpleServer.{SimpleServer, run_all, handle_next_frame}
use solicit.SimpleServer.Answer.{get_response-handle_next}
use solicit.SimpleServer.Answer.Handled.{request_of}
use solicit.SimpleServer.Answer.Prepared.{Fitting}
use solicit.SimpleServer.Delivery.Turns.{Sendable}
use solicit.Tests.Codec.{plain, plain-IsCodec}
use solicit.Tests.Pipe.{Pipe, start, pipe, pipe-IsStream}
use solicit.Tests.Simple.{conn, client, requests, idle, one_octet, answer, first_request}

-- The stream of the first request, and the server with it.
abbrev asking : DefaultStream
asking = record {
  stream_id = some 1;
  headers = some [];
  body = [];
  state = half_closed_remote;
  outgoing = none;
}

abbrev asked : SimpleServer plain Pipe (Unit {0})
asked = record {
  conn = record {
    conn = conn;
    state = record { streams = (1, asking) ∷ []; next_stream_id = 2; outgoing_parity = even };
  };
  receiver = start (drop 10 requests);
  sender = start [];
  handler = tt;
}

asked_lem : handle_next_frame (idle requests [] 65535) ≡ ok tt asked
unfolding handle_next_frame solicit.Server.handle_next_frame
    solicit.Connection.Handle.handle_next_frame solicit.Transport.recv_frame
    solicit.Transport.read_exact solicit.Transport.read_loop solicit.Frame.Header.unpack_header
    solicit.Base.join_3 solicit.Connection.HttpFrame.from_raw solicit.Frame.Raw.header
    solicit.Frame.Headers.from_raw solicit.Frame.Raw.payload solicit.Base.clear_top_bit
    solicit.Base.join_4 solicit.Frame.Raw.has_flag solicit.Server.new_headers get_stream_ref lookup
    solicit.Frame.Headers.is_end_of_stream solicit.Server.on_stream
    solicit.Session.State.change_stream solicit.Session.State.update
    solicit.Session.State.insert_incoming solicit.Session.State.validate_incoming_parity
    solicit.Session.State.parity_of solicit.Frame.Headers.get_stream_id solicit.Session.State.insert
    solicit.Session.Stream.close_remote solicit.Session.Stream.default_set_headers
    solicit.Session.Stream.with_id solicit.Tests.Codec.decode_all
asked_lem = refl

abbrev responses : List Response
responses = record { headers = []; stream_id = 1; body = 65 ∷ [] } ∷ []

responses_lem : run_all one_octet asked.conn.state.streams tt ≡ value (responses, tt)
unfolding run_all solicit.Session.Stream.is_closed_remote
responses_lem = refl

abbrev expecting : DefaultStream
expecting = record {
  stream_id = some 1;
  headers = none;
  body = [];
  state = solicit.Session.Stream.half_closed_local;
  outgoing = none;
}

asking_found : get_stream_ref asked.conn.state 1 ≡ some asking
unfolding get_stream_ref lookup
asking_found = refl

expecting_found : get_stream_ref (client (start answer) expecting).conn.state 1 ≡ some expecting
unfolding get_stream_ref lookup
expecting_found = refl

expecting_open : is_closed expecting ≡ false
unfolding is_closed
expecting_open = refl

responses_fit : Fitting plain tt responses
unfolding solicit.Tests.Codec.encode_all
responses_fit = (((omega arith, omega arith), omega arith), tt)

asked-Sendable : Sendable asked.conn.state.streams
unfolding lookup
asked-Sendable = ((tt, tt), (refl, tt), ((omega arith, omega arith), tt))

get_response-handle_next_example :
    (h : Unit {0}) × (n : ℕ) × (k' : SimpleClient plain Pipe) × (let r =
        (one_octet (request_of 1 [] asking) h).0 in
      (more : ℕ)
      → get_response (n + more) 1 (client (start answer) expecting)
        ≡ ok (record { stream_id = 1; headers = r.headers; body = r.body }) k')
get_response-handle_next_example =
    get_response-handle_next plain-IsCodec pipe-IsStream one_octet (λ r h. refl)
      (idle requests [] 65535) asked (idle (drop 10 requests) answer 65534) responses tt asking []
      (client (start answer) expecting) expecting 1 answer [] asked_lem first_request responses_lem
      responses_fit asked-Sendable asking_found refl refl refl refl tt refl expecting_found
      expecting_open
