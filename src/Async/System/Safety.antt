-- ===== src/Async/System/Safety.antt =====
-- client/async.rs: what holds in every state that the service, its threads and the clients reach.
use solicit.Base.{
  ℕ, ◌+◌, ◌-◌, ◌*◌, ◌^◌, ◌<◌, ◌≡◌, refl, arith, List, [], ◌∷◌, ◌++◌, Option, none, some, value,
  unwrap, ◌>>=◌,
}
use mathlib.Core.Path.{subst}
use solicit.Http.Response.{Header, HttpScheme}
use solicit.Connection.Defs.{Hpack}
use solicit.Transport.{TransportStream}
use solicit.Session.State.{client_state}
use solicit.Client.{with_connection}
use solicit.Async.Channel.{Channel, channel, send, send-queue, add_sender, drop_sender}
use solicit.Async.Sender
use solicit.Async.Receiver
use solicit.Async.Service.{
  WorkItem, handle_frame_item, send_data_item, client_left, new_client, new_service,
}
use solicit.Async.Service.Chans.{count, count-append}
use solicit.Async.Service.Invariant.{Inv, accounted, Kept, asked, asked_in}
use solicit.Async.Service.Invariant.Turns.{AfterTurn, run_once-Kept, same_core}
use solicit.Async.Front.{Client, clone, drop, issue, or_as_before}
use solicit.Async.System.{
  System, looping, Step, serve, write, write_notifies, write_ends, read, read_notifies, read_ends,
  issues, clones, drops, Steps, none_yet, and_then, with_connector,
}

asked_in-snoc :
    (x : ℕ) (items : List WorkItem) (item : WorkItem)
    → count x (asked_in (items ++ item ∷ [])) ≡ count x (asked item) + count x (asked_in items)
asked_in-snoc x [] item = count-append x (asked item) []
asked_in-snoc x (first ∷ items) item = omega (
  arith,
  count-append x (asked first) (asked_in (items ++ item ∷ [])),
  count-append x (asked first) (asked_in items),
  asked_in-snoc x items item,
)

-- What a work item that is sent adds to those of the queue.
send-asked :
    (x : ℕ) (item : WorkItem) (queue queue' : Channel WorkItem)
    → send item queue ≡ some queue'
    → count x (asked_in queue'.queue) ≡ count x (asked item) + count x (asked_in queue.queue)
send-asked x item queue queue' sent =
    rw (send-queue item queue queue' sent) (asked_in-snoc x queue.queue item)

cloned-asked :
    (x : ℕ) (sent : Option Client) (queue queue' : Client)
    → send new_client queue ≡ sent
    → (unwrap sent >>= λ sender. value (add_sender sender)) ≡ value queue'
    → count x (asked_in queue'.queue) ≡ count x (asked_in queue.queue)
unfolding add_sender
cloned-asked x none queue queue' e done = absurd cc
cloned-asked x (some q) queue queue' e done =
    let same : add_sender q ≡ queue' = cc in
    rw⁻¹ same (omega (arith, send-asked x new_client queue q e))

clone-asked :
    (x : ℕ) (queue queue' : Client)
    → clone queue ≡ value queue'
    → count x (asked_in queue'.queue) ≡ count x (asked_in queue.queue)
unfolding clone
clone-asked x queue queue' done = cloned-asked x (send new_client queue) queue queue' refl done

left-asked :
    (x : ℕ) (sent : Option Client) (queue : Client)
    → send client_left queue ≡ sent
    → count x (asked_in (or_as_before queue sent).queue) ≡ count x (asked_in queue.queue)
left-asked x none queue e = refl
left-asked x (some q) queue e = omega (arith, send-asked x client_left queue q e)

drop-asked :
    (x : ℕ) (queue : Client)
    → count x (asked_in (drop queue).queue) ≡ count x (asked_in queue.queue)
unfolding drop drop_sender
drop-asked x queue = left-asked x (send client_left queue) queue refl

issue-asked :
    (x tx : ℕ) (method path : List ℕ) (headers : List Header) (body : Option (List ℕ))
    (queue queue' : Client)
    → issue tx method path headers body queue ≡ some queue'
    → count x (asked_in queue'.queue) ≡ count x (tx ∷ []) + count x (asked_in queue.queue)
unfolding issue
issue-asked x tx method path headers body queue queue' sent = send-asked x _ queue queue' sent

module _ {hpack : Hpack} where
  pub new_service-Kept :
      {T : Type 0} (x : ℕ) (receiver sender : T) (scheme : HttpScheme) (host : List ℕ)
      → Kept x 0 1 (new_service hpack receiver sender scheme host).0
  unfolding new_service channel client_state with_connection
  new_service-Kept x receiver sender scheme host = (
    record {
      labelled = refl;
      distinct = tt;
      below = tt;
      counted = refl;
      bounded = omega arith;
      small = omega arith;
    },
    refl,
    omega arith,
  )

  module _ {T : Type 0} ⦃ts : TransportStream T⦄ where
    Step-Kept :
        (x total next : ℕ) (more : List ℕ) (sys sys' : System hpack T)
        → next + 2 < 2 ^ 32
        → Kept x total next sys.service
        → Step more sys sys'
        → Kept x (count x more + total) (next + 2) sys'.service
    unfolding drop_sender
    Step-Kept x total next more sys sys' room (v, t, b) (serve _ s done) =
        let (v', t', b') =
          subst
            (AfterTurn
              (Kept x (accounted x sys.service) (sys.service.conn.state.next_stream_id + 2)))
            done (run_once-Kept x sys.service v (omega arith)) in
        (v', omega arith, omega arith)
    Step-Kept x total next more sys sys' room (v, t, b) (write _ c w at sent) =
        (same_core sys.service _ v refl refl refl refl, omega (arith, t), omega arith)
    Step-Kept x total next more sys sys' room (v, t, b) (write_notifies _ queue at queued) = (
      same_core sys.service _ v refl refl refl refl,
      omega (arith, t, send-asked x send_data_item sys.service.work_queue queue queued),
      omega arith,
    )
    Step-Kept x total next more sys sys' room (v, t, b) (write_ends _ e c w at failed) =
        (same_core sys.service _ v refl refl refl refl, omega (arith, t), omega arith)
    Step-Kept x total next more sys sys' room (v, t, b) (read _ c r at got) =
        (same_core sys.service _ v refl refl refl refl, omega (arith, t), omega arith)
    Step-Kept x total next more sys sys' room (v, t, b) (read_notifies _ queue at queued) = (
      same_core sys.service _ v refl refl refl refl,
      omega (arith, t, send-asked x handle_frame_item sys.service.work_queue queue queued),
      omega arith,
    )
    Step-Kept x total next more sys sys' room (v, t, b) (read_ends _ e c r at failed) =
        (same_core sys.service _ v refl refl refl refl, omega (arith, t), omega arith)
    Step-Kept x total next more sys sys' room (v, t, b) (issues _ tx m p hs body queue queued) = (
      same_core sys.service _ v refl refl refl refl,
      omega (arith, t, issue-asked x tx m p hs body sys.service.work_queue queue queued),
      omega arith,
    )
    Step-Kept x total next more sys sys' room (v, t, b) (clones _ queue cloned) = (
      same_core sys.service _ v refl refl refl refl,
      omega (arith, t, clone-asked x sys.service.work_queue queue cloned),
      omega arith,
    )
    Step-Kept x total next more sys sys' room (v, t, b) (drops _) = (
      same_core sys.service _ v refl refl refl refl,
      omega (arith, t, drop-asked x sys.service.work_queue),
      omega arith,
    )

    Steps-Kept :
        (x n : ℕ) (asks : List ℕ) (sys sys' : System hpack T) (total next : ℕ)
        → next + 2 * n < 2 ^ 32
        → Kept x total next sys.service
        → Steps n asks sys sys'
        → Kept x (count x asks + total) (next + 2 * n) sys'.service
    Steps-Kept x n asks sys sys' total next room (v, t, b) (none_yet _) =
        (v, omega arith, omega arith)
    Steps-Kept x n asks sys sys' total next room k (and_then m asked more _ mid _ before last) =
        let (v', t', b') =
          Step-Kept x (count x asked + total) (next + 2 * m) more mid sys' (omega arith)
            (Steps-Kept x m asked sys mid total next (omega arith) k before) last in
        (v', omega (arith, t', count-append x more asked), omega arith)

  -- Where a client was started over some stream, and the service, its two threads and the clients
  -- then took fewer than 2 ^ 31 - 1 steps, in any order, the service has no more requests outstanding
  -- than its limit, namely as many as there are streams and as there are channels that wait for a
  -- response, and the keys of the two agree. Every channel for a response is, as often as a request
  -- was issued with it, among those that were answered, those that wait for an answer, and those of
  -- requests that are still queued.
  pub with_connector_safe :
      {T : Type 0} ⦃ts : TransportStream T⦄ (x n : ℕ) (asks : List ℕ) (receiver sender : T)
      (scheme : HttpScheme) (host : List ℕ) (sys sys' : System hpack T)
      → n < 2 ^ 31 - 1
      → with_connector hpack receiver sender scheme host ≡ some sys
      → Steps n asks sys sys'
      → Inv sys'.service × (accounted x sys'.service ≡ count x asks)
  unfolding with_connector new_service channel send add_sender client_state Sender.new Receiver.new
      with_connection
  with_connector_safe x n asks receiver sender scheme host sys sys' few begun steps =
      let (v, t, b) = new_service-Kept x receiver sender scheme host in
      let same : record {
        service = record (new_service hpack receiver sender scheme host).0 {
          work_queue = record (channel {A = WorkItem}) { queue = new_client ∷ []; senders = 3 };
        };
        reader = receiver;
        writer = sender;
        reading = looping;
        writing = looping;
      }
          ≡ sys =
        cc in
      let (v', t', b') =
        Steps-Kept x n asks sys sys' 0 1 (omega arith)
          (rw⁻¹ same (
            same_core (new_service hpack receiver sender scheme host).0 _ v refl refl refl refl,
            refl,
            omega arith,
          ))
          steps in
      (v', omega (arith, t'))
