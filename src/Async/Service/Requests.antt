-- ===== src/Async/Service/Requests.antt =====
-- client/async.rs: requests that go out and responses that come back.
use solicit.Base.{
  ℕ, ◌+◌, ◌-◌, ◌%◌, ◌^◌, List, [], ◌∷◌, ◌++◌, Option, none, some, Exec, value, panic, ◌>>=◌, unwrap,
  ltb, if◌then◌else◌,
}
use solicit.Http.Run.{Run, ok, err, fault}
use solicit.Http.Response.{new_header, as_bytes, Response}
use solicit.Session.Stream.{DefaultStream, default_stream, set_full_data, close_local}
use solicit.Session.Stream
use solicit.Session.State.{
  SessionState, lookup, insert, remove, get_stream_ref, change_stream, get_closed,
}
use solicit.Connection.Defs.{Hpack}
use solicit.Connection.Send.{on_second}
use solicit.Client.{ClientConnection, World, RequestStream, with_connection}
use solicit.Client
use solicit.Client.Names.{method_name, path_name, authority_name, scheme_name}
use solicit.Async.Sender.{channel_send}
use solicit.Async.Receiver.{channel_receive}
use solicit.Async.Service.{AsyncRequest, ClientService, on_conn}

-- The stream of a new request.
unfoldable pub body_stream : Option (List ℕ) → DefaultStream
body_stream (some body) = set_full_data body Stream.new
body_stream none = close_local Stream.new

-- `.ok().unwrap()`
abbrev pub unwrap_ok : {W A : Type 0} → Run W A → Exec (A × W)
unwrap_ok (ok a w) = value (a, w)
unwrap_ok (err e w) = panic
unwrap_ok fault = panic

module _ {hpack : Hpack} where
  unfoldable pub create_request :
      ClientService hpack → AsyncRequest → RequestStream DefaultStream × ℕ
  unfolding body_stream
  create_request s async_req = (
    record {
      headers =
          new_header method_name async_req.method
          ∷ new_header path_name async_req.path
          ∷ new_header authority_name s.host
          ∷ new_header scheme_name (as_bytes (Client.scheme s.conn))
          ∷ async_req.headers;
      stream = body_stream async_req.body;
    },
    async_req.tx,
  )

  -- What follows the start of a request, on the stream identifier that it was given.
  unfoldable pub register : ℕ → ℕ × ClientService hpack → Exec (ClientService hpack)
  register tx (stream_id, s) = do
    stream ← unwrap (get_stream_ref s.conn.state stream_id)
    value (record s {
      conn = record s.conn {
        state =
            change_stream s.conn.state stream_id
              (λ stream. record stream { stream_id = some stream_id });
      };
      chans = insert stream_id tx s.chans;
      outstanding_reqs = (s.outstanding_reqs + 1) % 2 ^ 32;
    })

  unfoldable pub send_request : AsyncRequest → ClientService hpack → Exec (ClientService hpack)
  unfolding on_conn register create_request
  send_request async_req s =
      let (req, tx) = create_request s async_req in
      unwrap_ok (on_conn (on_second (Client.start_request hpack req)) s) >>= register tx

  unfoldable pub send_response : DefaultStream → ClientService hpack → Exec (ClientService hpack)
  send_response stream s = do
    stream_id ← unwrap stream.stream_id
    tx ← unwrap (lookup stream_id s.chans)
    headers ← unwrap stream.headers
    let response : Response = record {
      stream_id = stream_id;
      headers = headers;
      body = stream.body;
    }
    value (record s {
      chans = remove stream_id s.chans;
      answered = s.answered ++ (tx, response) ∷ [];
    })

  -- `self.outstanding_reqs -= 1`
  abbrev pub one_less : ClientService hpack → ClientService hpack
  one_less s = record s { outstanding_reqs = (s.outstanding_reqs + 2 ^ 32 - 1) % 2 ^ 32 }

  -- The loop of `handle_closed` over the streams that were closed.
  unfoldable pub send_responses :
      List DefaultStream → ClientService hpack → Exec (ClientService hpack)
  unfolding send_response
  send_responses [] s = value s
  send_responses (stream ∷ streams) s =
      send_response stream s >>= λ s'. send_responses streams (one_less s')

  -- `get_closed` on the state of the connection.
  abbrev pub with_closed :
      ClientService hpack
      → SessionState DefaultStream × List DefaultStream
      → Exec (ClientService hpack)
  with_closed s (st, closed) =
      send_responses closed (record s { conn = record s.conn { state = st } })

  unfoldable pub handle_closed : ClientService hpack → Exec (ClientService hpack)
  unfolding send_responses
  handle_closed s = get_closed s.conn.state >>= with_closed s

  -- `request_queue.remove(0)` of a queue that is not empty.
  unfoldable pub send_first : List AsyncRequest → ClientService hpack → Exec (ClientService hpack)
  unfolding send_request
  send_first [] s = value s
  send_first (async_req ∷ rest) s = send_request async_req (record s { request_queue = rest })

  unfoldable pub queue_next_request : ClientService hpack → Exec (ClientService hpack)
  unfolding send_first
  queue_next_request s =
      if ltb s.outstanding_reqs s.limit then send_first s.request_queue s else value s
