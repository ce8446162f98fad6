-- ===== src/Tests/Connections.antt =====
-- http/connection.rs, http/client and http/server.rs at a concrete client and server.
use solicit.Base.{◌<◌, ◌^◌, ◌≡◌, ◌≢◌, refl, arith, ◌⊎◌, [], ◌∷◌, ◌++◌, length, none, some}
use solicit.Base.Int.{pos, ◌-ℤ◌, ◌≤ℤ◌}
use solicit.Http.Error.{window_size_overflow, unable_to_connect}
use solicit.Http.Run.{ok, err, ◌>>◌}
use solicit.Http.Response.{HttpScheme}
use solicit.Http.Window.Bounds.{min_window}
use solicit.Frame.Data
use solicit.Frame.Raw.{has_flag, with_flag}
use solicit.Session.Stream.{DefaultStream, default_stream, with_id, half_closed_local}
use solicit.Session.State.{
  SessionState, even, odd, get_stream_ref, parity_of, lookup, insert_outgoing,
}
use solicit.Priority.{yes_end, DataChunk}
use solicit.Connection.Defs.{HttpConnection, Session, ReceiveFrame}
use solicit.Connection.HttpFrame.{HttpFrame, data_frame}
use solicit.Connection.Send.{chunk_frame, headers_frame, send_data, send_frame, beside_second}
use solicit.Connection.Handle.{handle_data_frame, handle_frame, signal_end, expect_settings}
use solicit.Connection.Handle.Flow.{less, deliver, handle_data_frame_flow, send_data_flow}
use solicit.Connection.Handle.Block.{owned, ends, handle_frame-headers_frame}
use solicit.Connection.Handle.Handshake.{opening, expect_settings-opening}
use solicit.Connection.HttpFrame.RoundTrip.{IsWellFormed}
use solicit.Transport.Delivery.{octets_of}
use solicit.Transport.{transport_send, transport_receive}
use solicit.Client.{RequestStream, client_session, start_request}
use solicit.Client
use solicit.Client.Requests.{
  request_frame, block_of, end_of, start_request_sends, headers_frame-IsWellFormed,
}
use solicit.Server.{StreamFactory, handle_next_frame}
use solicit.Server.Requests.{requested, handle_next_frame_opens}
use solicit.Server.EndToEnd.{handle_next_frame-start_request}
use solicit.Server.Handshake.{server_sends_ack, expect_settings_refuses-send_settings}
use solicit.Tests.Codec.{encode_all, plain, plain-IsCodec}
use solicit.Tests.Pipe.{Pipe, start, pipe, pipe-IsStream}

abbrev conn : HttpConnection plain
conn = record {
  decoder = tt;
  encoder = tt;
  out_window_size = record { size = pos 65535 };
  in_window_size = record { size = pos 65535 };
  scheme = HttpScheme.http;
}

-- `SimpleFactory` of server/mod.rs, which has no state.
instance abbrev simple_factory : StreamFactory (Unit {0}) DefaultStream
simple_factory = record { create = λ id fac. (with_id id, fac) }

abbrev client : SessionState DefaultStream
client = record { streams = []; next_stream_id = 1; outgoing_parity = odd }

abbrev server : SessionState DefaultStream
server = record { streams = []; next_stream_id = 2; outgoing_parity = even }

abbrev request : RequestStream DefaultStream
request = record {
  headers = record { name = 0x61 ∷ []; value = 0x62 ∷ 0x63 ∷ [] } ∷ [];
  stream = record {
    stream_id = none;
    headers = none;
    body = [];
    state = half_closed_local;
    outgoing = none;
  };
}

server_parity : parity_of 1 ≢ even
unfolding parity_of
server_parity = λ e. cc

nothing_at_one : get_stream_ref server 1 ≡ none
unfolding get_stream_ref lookup
nothing_at_one = refl

abbrev frame : Data.DataFrame
frame = record { content = 7 ∷ 8 ∷ []; flags = 1; stream_id = 1; padding_len = none }

two_octets : Data.payload_len frame < 2 ^ 31
unfolding Data.payload_len has_flag
two_octets = omega arith

-- The sessions of a client and a server over pipes.
abbrev client_callbacks : Session plain (Client.ClientSession DefaultStream Pipe)
client_callbacks = client_session plain

handle_data_frame_flow_example :
    let n = Data.payload_len frame in
    let w = conn.in_window_size in
    ((min_window ≤ℤ w.size -ℤ pos n)
      × (handle_data_frame plain client_callbacks frame ((client, start []), conn)
          ≡ deliver plain client_callbacks frame
              ((client, start []), record conn { in_window_size = less plain w n })))
    ⊎ ((w.size -ℤ pos n ≤ℤ min_window -ℤ pos 1)
        × (handle_data_frame plain client_callbacks frame ((client, start []), conn)
            ≡ err window_size_overflow ((client, start []), conn)))
handle_data_frame_flow_example =
    handle_data_frame_flow plain client_callbacks frame (client, start []) conn (omega arith)
      two_octets

abbrev data_chunk : DataChunk
data_chunk = record { content = 7 ∷ 8 ∷ []; stream_id = 1; end_stream = yes_end }

chunk_octets : Data.payload_len (chunk_frame data_chunk) < 2 ^ 31
unfolding Data.payload_len has_flag with_flag chunk_frame Data.with_data Data.set_flag
chunk_octets = omega arith

send_data_flow_example :
    let n = Data.payload_len (chunk_frame data_chunk) in
    let w = conn.out_window_size in
    ((min_window ≤ℤ w.size -ℤ pos n)
      × (send_data plain data_chunk (conn, start [])
          ≡ send_frame plain
              (Data.serialize_into (chunk_frame data_chunk))
              (record conn { out_window_size = less plain w n }, start [])))
    ⊎ ((w.size -ℤ pos n ≤ℤ min_window -ℤ pos 1)
        × (send_data plain data_chunk (conn, start []) ≡ err window_size_overflow (conn, start [])))
send_data_flow_example = send_data_flow plain data_chunk conn (start []) (omega arith) chunk_octets

handle_frame-headers_frame_example :
    (d : Unit {0}) × (handle_frame plain client_callbacks
        (HttpFrame.headers_frame
          (headers_frame (plain.encode tt (owned request.headers)).0 1 yes_end))
        ((client, start []), conn)
      ≡ (client_callbacks.new_headers 1 request.headers
            >> signal_end plain client_callbacks (ends yes_end) 1)
          ((client, start []), record conn { decoder = d }))
    × Unit {0}
handle_frame-headers_frame_example =
    handle_frame-headers_frame plain plain-IsCodec client_callbacks request.headers 1 yes_end tt
      (client, start []) conn tt

-- A receiver that gives one fixed frame.
abbrev one_frame : ReceiveFrame HttpFrame
one_frame = record { recv_frame = λ r. ok r r }

expect_settings-opening_example :
    expect_settings plain client_callbacks ⦃rx = one_frame⦄
      (data_frame frame, ((client, start []), conn))
    ≡ beside_second
        (data_frame frame)
        (opening plain client_callbacks (data_frame frame) ((client, start []), conn))
expect_settings-opening_example =
    expect_settings-opening plain client_callbacks ⦃rx = one_frame⦄ (data_frame frame)
      (data_frame frame) (data_frame frame) ((client, start []), conn) refl

block_small : length (block_of plain request conn) < 2 ^ 24
unfolding encode_all
block_small = omega arith

first_frame-IsWellFormed : IsWellFormed (request_frame plain request 1 conn)
first_frame-IsWellFormed =
    headers_frame-IsWellFormed (block_of plain request conn) 1 (end_of plain request) (omega arith)
      (omega arith) block_small

start_request_sends_example :
    (out : Pipe) × (start_request plain request ((client, start []), conn)
      ≡ ok 1 (((insert_outgoing client request.stream).0, out), conn))
    × (out.written ≡ [] ++ octets_of (request_frame plain request 1 conn) first_frame-IsWellFormed)
start_request_sends_example =
    start_request_sends plain pipe-IsStream request client (start []) conn first_frame-IsWellFormed

abbrev started : Pipe
started =
    (start_request_sends plain pipe-IsStream request client (start []) conn
      first_frame-IsWellFormed).0

handle_next_frame-start_request_example :
    (r : Pipe) × (st : SessionState DefaultStream) × (d : Unit {0}) × (handle_next_frame plain
        (start started.written, ((server, tt, start []), conn))
      ≡ ok tt (r, ((st, tt, start []), record conn { decoder = d })))
    × (get_stream_ref st 1 ≡ some (requested (end_of plain request) 1 request.headers tt))
    × Unit {0}
handle_next_frame-start_request_example =
    handle_next_frame-start_request plain plain-IsCodec pipe-IsStream request client (start []) conn
      (((insert_outgoing client request.stream).0, started), conn) 1 (start started.written) server
      tt (start []) conn (omega arith) (omega arith) block_small refl
      (start_request_sends plain pipe-IsStream request client (start []) conn
        first_frame-IsWellFormed).1
      refl tt nothing_at_one server_parity

handle_next_frame_opens_example :
    (r : Pipe) × (st : SessionState DefaultStream) × (d : Unit {0}) × (handle_next_frame plain (
      start (octets_of (request_frame plain request 1 conn) first_frame-IsWellFormed ++ []),
      ((server, tt, start []), conn),
    )
      ≡ ok tt (r, ((st, tt, start []), record conn { decoder = d })))
    × (get_stream_ref st 1 ≡ some (requested (end_of plain request) 1 request.headers tt))
    × Unit {0}
    × (r.unread ≡ [])
handle_next_frame_opens_example =
    handle_next_frame_opens plain pipe-IsStream plain-IsCodec request.headers 1
      (end_of plain request) tt []
      (start (octets_of (request_frame plain request 1 conn) first_frame-IsWellFormed ++ [])) server
      tt (start []) conn first_frame-IsWellFormed refl tt nothing_at_one server_parity

abbrev greeting : Pipe
greeting = (server_sends_ack plain pipe-IsStream server tt (start []) conn).0

expect_settings_refuses-send_settings_example :
    (r : Pipe) × (Client.expect_settings plain
        (start (greeting.written ++ []), ((client, start []), conn))
      ≡ err unable_to_connect (r, ((client, start []), conn)))
expect_settings_refuses-send_settings_example =
    expect_settings_refuses-send_settings plain pipe-IsStream server tt (start []) greeting conn
      conn [] (start (greeting.written ++ [])) ((client, start []), conn) refl
      (server_sends_ack plain pipe-IsStream server tt (start []) conn).1 refl
