-- ===== src/SimpleClient.antt =====
-- client/simple.rs: the client that waits for each response.
pub mod Body
pub mod Await
pub mod Arrives
pub mod Connect
use solicit.Base.{
  ℕ, zero, suc, List, ◌∷◌, Option, none, some, Exec, value, panic, unwrap, if◌then◌else◌,
}
use solicit.Http.Error.{HttpResult, success, failure, unknown_stream_id}
use solicit.Http.Run.{Run, ok, err, fault, M, followed_by, ◌>>=◌, ◌>>◌, pure, throw, lift}
use solicit.Http.Response.{Header, new_header, as_bytes, Response, HttpScheme}
use solicit.Session.Stream.{DefaultStream, default_stream, set_full_data, close_local, is_closed}
use solicit.Session.Stream
use solicit.Session.State.{client_state, get_stream_ref, change_stream}
use solicit.Connection.Defs.{Hpack}
use solicit.Connection.Defs
use solicit.Connection.Repeat.{repeat}
use solicit.Connection.Send.{SendStatus, on_second}
use solicit.Transport.{TransportStream, transport_send, transport_receive}
use solicit.Client.{ClientConnection, World, RequestStream, with_connection}
use solicit.Client
use solicit.Client.Names.{
  method_name, path_name, authority_name, scheme_name, get_method, post_method,
}
use solicit.Priority.Pending.{pending}

pub record SimpleClient (hpack : Hpack) (T : Type 0) : Type 0 where
  pub conn : ClientConnection hpack DefaultStream
  pub host : List ℕ
  pub receiver : T
  pub sender : T

module _ {hpack : Hpack} {T : Type 0} where
  -- A method of the connection, with the receiver and the sender of the client.
  abbrev pub put_back :
      {A : Type 0}
      → SimpleClient hpack T
      → Run (T × World hpack DefaultStream T) A
      → Run (SimpleClient hpack T) A
  put_back c (ok a (rx, ((st, tx), conn))) =
      ok a (record c { receiver = rx; sender = tx; conn = record { conn = conn; state = st } })
  put_back c (err e (rx, ((st, tx), conn))) =
      err e (record c { receiver = rx; sender = tx; conn = record { conn = conn; state = st } })
  put_back c fault = fault

  unfoldable pub on_conn :
      {A : Type 0} → M (T × World hpack DefaultStream T) A → M (SimpleClient hpack T) A
  on_conn m c = put_back c (m (c.receiver, ((c.conn.state, c.sender), c.conn.conn)))

  -- A method that sends, with the receiver in the place of the sender.
  abbrev pub put_receiver :
      {A : Type 0}
      → SimpleClient hpack T
      → Run (World hpack DefaultStream T) A
      → Run (SimpleClient hpack T) A
  put_receiver c (ok a ((st, rx), conn)) =
      ok a (record c { receiver = rx; conn = record { conn = conn; state = st } })
  put_receiver c (err e ((st, rx), conn)) =
      err e (record c { receiver = rx; conn = record { conn = conn; state = st } })
  put_receiver c fault = fault

  unfoldable pub on_receiver :
      {A : Type 0} → M (World hpack DefaultStream T) A → M (SimpleClient hpack T) A
  on_receiver m c = put_receiver c (m ((c.conn.state, c.receiver), c.conn.conn))

  unfoldable pub new_stream :
      SimpleClient hpack T
      → List ℕ
      → List ℕ
      → List Header
      → Option (List ℕ)
      → RequestStream DefaultStream
  new_stream c method path extras body = record {
    headers =
        new_header method_name method
        ∷ new_header path_name path
        ∷ new_header authority_name c.host
        ∷ new_header scheme_name (as_bytes (Client.scheme c.conn))
        ∷ extras;
    stream = elim body [
      | some bytes ↦ set_full_data bytes Stream.new
      | none ↦ close_local Stream.new
    ];
  }

  -- `get_stream_mut(stream_id).unwrap().stream_id = Some(stream_id)`
  unfoldable pub assign_id : ℕ → M (SimpleClient hpack T) (Unit {0})
  assign_id stream_id c =
      followed_by (lift (unwrap (get_stream_ref c.conn.state stream_id)) c) λ stream c'.
        ok tt (record c' {
          conn = record c'.conn {
            state =
                change_stream c'.conn.state stream_id
                  (λ s. record s { stream_id = some stream_id });
          };
        })

module _ {hpack : Hpack} {T : Type 0} ⦃ts : TransportStream T⦄ where
  unfoldable pub init : M (SimpleClient hpack T) (Unit {0})
  unfolding on_conn
  init = on_conn (Client.expect_settings hpack)

  -- `with_stream`, with the result of `try_split`: the client, on which `init` was run.
  unfoldable pub with_stream :
      HttpResult T → T → List ℕ → HttpScheme → Exec (HttpResult (SimpleClient hpack T))
  unfolding init with_connection client_state
  with_stream (failure e) stream host scheme = value (failure e)
  with_stream (success receiver) stream host scheme = initialized (
      init (record {
        conn = with_connection (Defs.new hpack scheme) (client_state DefaultStream);
        host = host;
        receiver = receiver;
        sender = stream;
      }))
    where
      initialized : Run (SimpleClient hpack T) (Unit {0}) → Exec (HttpResult (SimpleClient hpack T))
      initialized (ok a c) = value (success c)
      initialized (err e c) = value (failure e)
      initialized fault = panic

  unfoldable pub send_next_data : M (SimpleClient hpack T) SendStatus
  unfolding on_conn
  send_next_data = on_conn (on_second (Client.send_next_data hpack))

  -- The loop of `request`; every turn but the last takes octets from a stream or closes one.
  unfoldable pub send_body : M (SimpleClient hpack T) (Unit {0})
  unfolding send_next_data
  send_body c = repeat send_next_data (suc (pending c.conn.state.streams)) c

  unfoldable pub request :
      List ℕ → List ℕ → List Header → Option (List ℕ) → M (SimpleClient hpack T) ℕ
  unfolding on_receiver new_stream assign_id send_body
  request method path extras body = do
    stream_id ←
        λ c. on_receiver (Client.start_request hpack (new_stream c method path extras body)) c
    assign_id stream_id
    send_body
    pure stream_id

  unfoldable pub handle_next_frame : M (SimpleClient hpack T) (Unit {0})
  unfolding on_conn
  handle_next_frame = on_conn (Client.handle_next_frame hpack)

  -- The response of a closed stream, its headers unwrapped.
  unfoldable pub response_of : ℕ → DefaultStream → M (SimpleClient hpack T) Response
  response_of stream_id stream = do
    headers ← lift (unwrap stream.headers)
    pure (record { stream_id = stream_id; headers = headers; body = stream.body })

  -- A turn of the loop of `get_response`: the response if the stream is closed, and else what
  -- follows.
  abbrev pub look :
      ℕ
      → M (SimpleClient hpack T) Response
      → Option DefaultStream
      → M (SimpleClient hpack T) Response
  look stream_id further none = further
  look stream_id further (some stream) =
      if is_closed stream then response_of stream_id stream else further

  -- The loop, for at most so many frames.
  unfoldable pub await_response : ℕ → ℕ → M (SimpleClient hpack T) Response
  unfolding response_of handle_next_frame
  await_response zero stream_id c =
      look stream_id (λ _. fault) (get_stream_ref c.conn.state stream_id) c
  await_response (suc frames) stream_id c =
      look stream_id (handle_next_frame >> await_response frames stream_id)
        (get_stream_ref c.conn.state stream_id) c

  -- A stream that is not known is an error.
  abbrev pub known :
      Option DefaultStream → M (SimpleClient hpack T) Response → M (SimpleClient hpack T) Response
  known none next = throw unknown_stream_id
  known (some stream) next = next

  unfoldable pub get_response : ℕ → ℕ → M (SimpleClient hpack T) Response
  unfolding await_response
  get_response frames stream_id c =
      known (get_stream_ref c.conn.state stream_id) (await_response frames stream_id) c

  unfoldable pub get : ℕ → List ℕ → List Header → M (SimpleClient hpack T) Response
  unfolding request get_response
  get frames path extra_headers = do
    stream_id ← request get_method path extra_headers none
    get_response frames stream_id

  unfoldable pub post : ℕ → List ℕ → List Header → List ℕ → M (SimpleClient hpack T) Response
  unfolding request get_response
  post frames path extra_headers body = do
    stream_id ← request post_method path extra_headers (some body)
    get_response frames stream_id
