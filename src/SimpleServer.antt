-- ===== src/SimpleServer.antt =====
-- server/mod.rs: the server that runs a handler on each request.
pub mod Flush
pub mod Answers
pub mod Establish
pub mod Received
pub mod Requests
pub mod Staging
pub mod Serving
pub mod Delivery
pub mod Answer
use solicit.Base.{ℕ, suc, List, [], ◌∷◌, Exec, value, panic, ◌>>=◌, unwrap, if◌then◌else◌}
use solicit.Http.Error.{HttpResult, success, failure, unable_to_connect}
use solicit.Http.Run.{Run, ok, err, fault, M, followed_by, ◌>>◌, lift, pure}
use solicit.Http.Response.{Header, Response, HttpScheme, bytes_eq}
use solicit.Session.Stream.{DefaultStream, default_stream, set_full_data, is_closed_remote, with_id}
use solicit.Session.State.{SessionState, server_state, get_stream_ref, change_stream, get_closed}
use solicit.Priority.{no_end}
use solicit.Priority.Pending.{pending}
use solicit.Connection.Defs.{Hpack, HttpConnection}
use solicit.Connection.Defs
use solicit.Connection.Repeat.{repeat}
use solicit.Connection.Send.{SendStatus, on_second}
use solicit.Transport.{TransportStream, read_exact, transport_send, transport_receive}
use solicit.Client.{preface}
use solicit.Server.{StreamFactory, World}
use solicit.Server

pub record ServerRequest : Type 0 where
  pub stream_id : ℕ
  pub headers : List Header
  pub body : List ℕ

-- `SimpleFactory` has no state.
instance abbrev pub simple_factory : StreamFactory (Unit {0}) DefaultStream
simple_factory = record { create = λ id fac. (with_id id, fac) }

-- `ServerConnection`, with no state of its factory, and the state of the handler.
pub record ServerConnection (hpack : Hpack) : Type 0 where
  pub conn : HttpConnection hpack
  pub state : SessionState DefaultStream

pub record SimpleServer (hpack : Hpack) (T H : Type 0) : Type 0 where
  pub conn : ServerConnection hpack
  pub receiver : T
  pub sender : T
  pub handler : H

module _ {hpack : Hpack} {T H : Type 0} where
  -- A method of the connection, with the receiver and the sender of the server.
  abbrev pub put_back :
      {A : Type 0}
      → SimpleServer hpack T H
      → Run (T × World hpack DefaultStream (Unit {0}) T) A
      → Run (SimpleServer hpack T H) A
  put_back s (ok a (rx, ((st, fac, tx), conn))) =
      ok a (record s { receiver = rx; sender = tx; conn = record { conn = conn; state = st } })
  put_back s (err e (rx, ((st, fac, tx), conn))) =
      err e (record s { receiver = rx; sender = tx; conn = record { conn = conn; state = st } })
  put_back s fault = fault

  unfoldable pub on_conn :
      {A : Type 0} → M (T × World hpack DefaultStream (Unit {0}) T) A → M (SimpleServer hpack T H) A
  on_conn m s = put_back s (m (s.receiver, ((s.conn.state, tt, s.sender), s.conn.conn)))

-- The callback that the server is given, which may change its own state.
module _ {H : Type 0} (run_handler : ServerRequest → H → Response × H) where
  -- The responses for the streams whose remote end is closed, in the order of the iterator.
  unfoldable pub run_all : List (ℕ × DefaultStream) → H → Exec (List Response × H)
  run_all [] h = value ([], h)
  run_all ((stream_id, stream) ∷ streams) h =
      if is_closed_remote stream
      then (do
        headers ← unwrap stream.headers
        let (response, h') =
            run_handler (record { stream_id = stream_id; headers = headers; body = stream.body }) h
        (responses, h'') ← run_all streams h'
        value (response ∷ responses, h''))
      else run_all streams h

  module _ {hpack : Hpack} {T : Type 0} where
    unfoldable pub handle_requests : M (SimpleServer hpack T H) (List Response)
    unfolding run_all
    handle_requests s =
        followed_by (lift (run_all s.conn.state.streams s.handler) s)
          λ (responses, h) s'. ok responses (record s' { handler = h })

module _ {hpack : Hpack} {T H : Type 0} where
  -- The removed streams are dropped.
  unfoldable pub reap_streams : M (SimpleServer hpack T H) (Unit {0})
  reap_streams s =
      followed_by (lift (get_closed s.conn.state) s)
        λ (st, removed) s'. ok tt (record s' { conn = record s'.conn { state = st } })

  -- `get_stream_mut(stream_id).unwrap().set_full_data(body)`
  unfoldable pub stage : ℕ → List ℕ → M (SimpleServer hpack T H) (Unit {0})
  stage stream_id body s =
      followed_by (lift (unwrap (get_stream_ref s.conn.state stream_id)) s) λ stream s'.
        ok tt (record s' {
          conn = record s'.conn {
            state = change_stream s'.conn.state stream_id (set_full_data body);
          };
        })

  module _ ⦃ts : TransportStream T⦄ where
    unfoldable pub prepare_responses : List Response → M (SimpleServer hpack T H) (Unit {0})
    unfolding on_conn stage
    prepare_responses [] = pure tt
    prepare_responses (response ∷ responses) = do
      on_conn (on_second (Server.start_response hpack response.headers response.stream_id no_end))
      stage response.stream_id response.body
      prepare_responses responses

    unfoldable pub send_next_data : M (SimpleServer hpack T H) SendStatus
    unfolding on_conn
    send_next_data = on_conn (on_second (Server.send_next_data hpack))

    -- Every turn but the last takes octets from a stream or closes one.
    unfoldable pub flush_streams : M (SimpleServer hpack T H) (Unit {0})
    unfolding send_next_data
    flush_streams s = repeat send_next_data (suc (pending s.conn.state.streams)) s

    unfoldable pub handle_next_frame : M (SimpleServer hpack T H) (Unit {0})
    unfolding on_conn
    handle_next_frame = on_conn (Server.handle_next_frame hpack)

    unfoldable pub handle_next :
        (ServerRequest → H → Response × H) → M (SimpleServer hpack T H) (Unit {0})
    unfolding handle_next_frame handle_requests prepare_responses flush_streams reap_streams
    handle_next run_handler = handle_next_frame >> λ s.
        followed_by (handle_requests run_handler s)
          (λ responses. prepare_responses responses >> flush_streams >> reap_streams)

    -- What `new` does once the preface was read from the stream, with the result of `try_split`.
    unfoldable pub handshake : HttpResult T → H → T → Exec (HttpResult (SimpleServer hpack T H))
    unfolding on_conn server_state
    handshake (failure e) handler stream = value (failure e)
    handshake (success receiver) handler stream = established (
        (on_conn (on_second (Server.send_settings hpack)) >> on_conn (Server.expect_settings hpack))
          (record {
            conn = record {
              conn = Defs.new hpack HttpScheme.http;
              state = server_state DefaultStream;
            };
            receiver = receiver;
            sender = stream;
            handler = handler;
          }))
      where
        established :
            Run (SimpleServer hpack T H) (Unit {0}) → Exec (HttpResult (SimpleServer hpack T H))
        established (ok a s) = value (success s)
        established (err e s) = value (failure e)
        established fault = panic

    -- What `new` does with the octets in the place of the preface. An error of the read is a panic.
    abbrev pub greeted :
        (T → HttpResult T) → H → Run T (List ℕ) → Exec (HttpResult (SimpleServer hpack T H))
    greeted try_split handler (ok octets stream) =
        if bytes_eq octets preface
        then handshake (try_split stream) handler stream
        else value (failure unable_to_connect)
    greeted try_split handler (err e stream) = panic
    greeted try_split handler fault = panic

    -- `SimpleServer::new`, for what `try_split` makes of the stream.
    unfoldable pub new : (T → HttpResult T) → H → T → Exec (HttpResult (SimpleServer hpack T H))
    unfolding handshake
    new try_split handler stream = greeted try_split handler (read_exact 24 stream)
