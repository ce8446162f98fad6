-- ===== src/Async/Service/Loop.antt =====
-- client/async.rs: one turn of the service.
use solicit.Base.{Bool, true, false, [], ◌∷◌, ◌++◌, Exec, value, panic, ◌>>=◌, ◌==◌, if◌then◌else◌}
use solicit.Base.Int.{ℤ, pos, negsuc, ◌+ℤ◌, ◌-ℤ◌, wrap_i32}
use solicit.Http.Run.{Run, ok, err, fault}
use solicit.Session.Stream.{default_stream}
use solicit.Connection.Defs.{Hpack}
use solicit.Connection.Send.{on_second}
use solicit.Client.{ClientConnection, World, RequestStream, with_connection}
use solicit.Client
use solicit.Async.Channel.{Received, received, disconnected, waiting, recv}
use solicit.Async.Sender.{channel_send}
use solicit.Async.Receiver.{channel_receive}
use solicit.Async.Service.{
  WorkItem, request, handle_frame_item, send_data_item, new_client, client_left, ClientService,
  done, http, Turn, goes_on, stops, waits, panics, on_conn,
}
use solicit.Async.Service.Requests.{handle_closed, queue_next_request}

abbrev pub is_zero : ℤ → Bool
is_zero (pos n) = n == 0
is_zero (negsuc n) = false

module _ {hpack : Hpack} where
  abbrev pub returns : Exec (ClientService hpack) → Turn (ClientService hpack)
  returns (value s) = goes_on s
  returns panic = panics

  -- `try!` of a method of the connection, and what follows it.
  abbrev pub after_conn :
      {A : Type 0}
      → Run (ClientService hpack) A
      → (ClientService hpack → Turn (ClientService hpack))
      → Turn (ClientService hpack)
  after_conn (ok a s) next = next s
  after_conn (err e s) next = stops (http e) s
  after_conn fault next = panics

  unfoldable pub handle_frame : ClientService hpack → Turn (ClientService hpack)
  unfolding on_conn handle_closed queue_next_request
  handle_frame s =
      after_conn (on_conn (Client.handle_next_frame hpack) s)
        (λ s'. returns (handle_closed s' >>= queue_next_request))

  -- `run_once`, on the item that it took from the queue.
  unfoldable pub run_item : WorkItem → ClientService hpack → Turn (ClientService hpack)
  unfolding handle_frame queue_next_request on_conn
  run_item (request async_req) s =
      returns (queue_next_request (record s { request_queue = s.request_queue ++ async_req ∷ [] }))
  run_item handle_frame_item s =
      if s.initialized
      then handle_frame s
      else after_conn (on_conn (Client.expect_settings hpack) s)
          (λ s'. goes_on (record s' { initialized = true }))
  run_item send_data_item s =
      after_conn (on_conn (on_second (Client.send_next_data hpack)) s) goes_on
  run_item new_client s = goes_on (record s { client_count = wrap_i32 (s.client_count +ℤ pos 1) })
  run_item client_left s =
      let s' = record s { client_count = wrap_i32 (s.client_count -ℤ pos 1) } in
      if is_zero s'.client_count then stops done s' else goes_on s'

  abbrev pub run_received : ClientService hpack → Received WorkItem → Turn (ClientService hpack)
  run_received s (received item queue) = run_item item (record s { work_queue = queue })
  run_received s disconnected = stops done s
  run_received s waiting = waits

  unfoldable pub run_once : ClientService hpack → Turn (ClientService hpack)
  unfolding run_item
  run_once s = run_received s (recv s.work_queue)
