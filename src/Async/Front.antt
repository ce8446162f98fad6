-- ===== src/Async/Front.antt =====
-- client/async.rs: the client that several threads hold, over the work queue of the service.
use solicit.Base.{ℕ, List, Option, none, some, Exec, value, ◌>>=◌, unwrap}
use solicit.Http.Response.{Header}
use solicit.Client.Names.{get_method, post_method}
use solicit.Async.Channel.{Channel, send, add_sender, drop_sender}
use solicit.Async.Service.{WorkItem, request, new_client, client_left}

-- A `Client` is a sender of the work queue, whose state is that of the channel.
abbrev pub Client : Type 0
Client = Channel WorkItem

unfoldable pub clone : Client → Exec Client
unfolding send add_sender
clone sender = do sender' ← unwrap (send new_client sender); value (add_sender sender')

-- A failure to send is ignored.
abbrev pub or_as_before : Client → Option Client → Client
or_as_before sender none = sender
or_as_before sender (some sender') = sender'

unfoldable pub drop : Client → Client
unfolding send drop_sender
drop sender = drop_sender (or_as_before sender (send client_left sender))

-- `request` of the client: `tx` is the channel made for the response, and the result is that of
-- sending the work item.
unfoldable pub issue : ℕ → List ℕ → List ℕ → List Header → Option (List ℕ) → Client → Option Client
unfolding send
issue tx method path headers body sender =
    send
      (request (record { method = method; path = path; headers = headers; body = body; tx = tx }))
      sender

unfoldable pub get : ℕ → List ℕ → List Header → Client → Option Client
unfolding issue
get tx path headers = issue tx get_method path headers none

unfoldable pub post : ℕ → List ℕ → List Header → List ℕ → Client → Option Client
unfolding issue
post tx path headers body = issue tx post_method path headers (some body)
