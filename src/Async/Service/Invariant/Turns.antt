-- ===== src/Async/Service/Invariant/Turns.antt =====
-- client/async.rs: a turn of the service keeps the invariant and loses no request.
use solicit.Base.{
  OnValue, bind-OnValue, OnValue-weaken, ℕ, if◌then◌else◌, Bool, ◌+◌, ◌^◌, ◌≤◌, ◌<◌, ◌≡◌, refl, ◌∙◌,
  arith, true, false, List, [], ◌∷◌, ◌++◌, map, Exec, value, panic, ◌>>=◌,
}
use solicit.Base.Int.{pos, wrap_i32, ◌-ℤ◌}
use solicit.Http.Run.{Run, ok, err, fault}
use solicit.Connection.Defs.{Hpack}
use solicit.Connection.Send.{on_second}
use solicit.Connection.Keeps.{After, on_second-Keeps}
use solicit.Session.Stream.{default_stream}
use solicit.Client
use solicit.Client.Labels.{
  handle_next_frame-Labelled, expect_settings-Labelled, send_next_data-Labelled, Labelled,
}
use solicit.Async.Channel.{Received, received, disconnected, waiting, recv, Front, recv-Front}
use solicit.Async.Sender.{channel_send}
use solicit.Async.Receiver.{channel_receive}
use solicit.Async.Service.{
  AsyncRequest, WorkItem, request, handle_frame_item, send_data_item, new_client, client_left,
  ClientService, Turn, goes_on, stops, waits, panics, on_conn,
}
use solicit.Async.Service.Requests.{queue_next_request, handle_closed}
use solicit.Async.Service.Loop.{
  is_zero, handle_frame, run_item, run_once, run_received, returns, after_conn,
}
use solicit.Async.Service.Chans.{own, count, count-append}
use solicit.Async.Service.Invariant.{
  Inv, accounted, Kept, put_back-Kept, queue_next_request-Kept, asked, asked_in,
}
use solicit.Async.Service.Invariant.Closing.{handle_closed-Kept}

-- What holds of the service after a turn that returns.
abbrev pub AfterTurn : {W : Type 0} → (W → Type 0) → Turn W → Type 0
AfterTurn P (goes_on s) = P s
AfterTurn P (stops e s) = P s
AfterTurn P waits = Unit {0}
AfterTurn P panics = Unit {0}

count-requests :
    (x : ℕ) (r : AsyncRequest) (queue : List AsyncRequest)
    → count x (map (λ q. q.tx) (queue ++ r ∷ []))
      ≡ count x (map (λ q. q.tx) queue) + count x (r.tx ∷ [])
count-requests x r [] = omega arith
count-requests x r (q ∷ queue) = ground (arith, count-requests x r queue)

module _ {hpack : Hpack} where
  pub returns-After :
      (P : ClientService hpack → Type 0) (y : Exec (ClientService hpack))
      → OnValue P y
      → AfterTurn P (returns y)
  returns-After P (value s) h = h
  returns-After P panic h = tt

  pub after_conn-After :
      {A : Type 0} (P Q : ClientService hpack → Type 0) (r : Run (ClientService hpack) A)
      (next : ClientService hpack → Turn (ClientService hpack))
      → After P r
      → ((s : ClientService hpack) → P s → Q s)
      → ((s : ClientService hpack) → P s → AfterTurn Q (next s))
      → AfterTurn Q (after_conn r next)
  after_conn-After P Q (ok a s) next h f g = g s h
  after_conn-After P Q (err e s) next h f g = f s h
  after_conn-After P Q fault next h f g = tt

  pub if-After :
      (P : ClientService hpack → Type 0) (b : Bool) (t u : Turn (ClientService hpack))
      → AfterTurn P t
      → AfterTurn P u
      → AfterTurn P (if b then t else u)
  if-After P true t u h k = h
  if-After P false t u h k = k

  -- A larger bound does as well.
  Kept-weaken :
      (x total total' n n' : ℕ) (s : ClientService hpack)
      → total ≡ total'
      → n ≤ n'
      → Kept x total n s
      → Kept x total' n' s
  Kept-weaken x total total' n n' s same le (v, t, b) = (v, t ∙ same, omega arith)

  -- Another request, when no channel more is free.
  then_next-Kept :
      (x total next : ℕ) (s : ClientService hpack)
      → next + 2 < 2 ^ 32
      → Kept x total next s
      → OnValue (Kept x total (next + 2)) (queue_next_request s)
  then_next-Kept x total next s room (v, t, b) =
      OnValue-weaken _ _ (queue_next_request s) (λ s' (v', t', b'). (v', t' ∙ t, omega arith))
        (queue_next_request-Kept x s v (omega arith))

  handle_frame-Kept :
      (x total : ℕ) (s : ClientService hpack)
      → Inv s
      → s.conn.state.next_stream_id + 2 < 2 ^ 32
      → accounted x s ≡ total
      → AfterTurn (Kept x total (s.conn.state.next_stream_id + 2)) (handle_frame s)
  unfolding handle_frame on_conn
  handle_frame-Kept x total s v room same =
      let next = s.conn.state.next_stream_id in
      after_conn-After (Kept x (accounted x s) next) _ (on_conn (Client.handle_next_frame hpack) s)
        _
        (put_back-Kept x s _ v (
          handle_next_frame-Labelled hpack (own s.chans) next
            (s.recv_handle, ((s.conn.state, s.send_handle), s.conn.conn)) (v.labelled, refl)))
        (λ s'. Kept-weaken x (accounted x s) total next (next + 2) s' same (omega arith))
        (λ s' (v', t, b).
          returns-After (Kept x total (next + 2)) (handle_closed s' >>= queue_next_request) (
            bind-OnValue (Kept x total next) (Kept x total (next + 2)) (handle_closed s')
              queue_next_request
              (OnValue-weaken _ _ (handle_closed s')
                (λ s''. Kept-weaken x (accounted x s') total _ next s'' (t ∙ same) b)
                (handle_closed-Kept x s' v'))
              (λ s''. then_next-Kept x total next s'' room)))

  -- The same streams and channels, in another service.
  pub same_core :
      (s s' : ClientService hpack)
      → Inv s
      → s'.conn ≡ s.conn
      → s'.chans ≡ s.chans
      → s'.outstanding_reqs ≡ s.outstanding_reqs
      → s'.limit ≡ s.limit
      → Inv s'
  same_core s s' v c h o l = record {
    labelled = rw (c, h) v.labelled;
    distinct = rw h v.distinct;
    below = rw (c, h) v.below;
    counted = rw (o, h) v.counted;
    bounded = rw (o, l) v.bounded;
    small = rw l v.small;
  }

  run_item-Kept :
      (x total : ℕ) (item : WorkItem) (s : ClientService hpack)
      → Inv s
      → s.conn.state.next_stream_id + 2 < 2 ^ 32
      → count x (asked item) + accounted x s ≡ total
      → AfterTurn (Kept x total (s.conn.state.next_stream_id + 2)) (run_item item s)
  unfolding run_item on_conn
  run_item-Kept x total (request r) s v room same =
      let s' : ClientService hpack = record s { request_queue = s.request_queue ++ r ∷ [] } in
      let added : accounted x s' ≡ total =
        ground (arith, same, count-requests x r s.request_queue) in
      returns-After _ (queue_next_request s')
        (rw⁻¹ added (queue_next_request-Kept x s' (same_core s s' v refl refl refl refl) room))
  run_item-Kept x total handle_frame_item s v room same =
      let next = s.conn.state.next_stream_id in
      let same' : accounted x s ≡ total = omega (arith, same) in
      if-After _ s.initialized _ _ (handle_frame-Kept x total s v room same') (
        after_conn-After (Kept x (accounted x s) next) _ (on_conn (Client.expect_settings hpack) s)
          _
          (put_back-Kept x s _ v (
            expect_settings-Labelled hpack (own s.chans) next
              (s.recv_handle, ((s.conn.state, s.send_handle), s.conn.conn)) (v.labelled, refl)))
          (λ s'. Kept-weaken x (accounted x s) total next _ s' same' (omega arith))
          (λ s' (v', t, b). (same_core s' _ v' refl refl refl refl, t ∙ same', omega arith)))
  run_item-Kept x total send_data_item s v room same =
      let next = s.conn.state.next_stream_id in
      let same' : accounted x s ≡ total = omega (arith, same) in
      after_conn-After (Kept x (accounted x s) next) _
        (on_conn (on_second (Client.send_next_data hpack)) s) _
        (put_back-Kept x s _ v (
          on_second-Keeps (λ w. Labelled (own s.chans) next w.0.0) _
            (send_next_data-Labelled hpack (own s.chans) next)
            (s.recv_handle, ((s.conn.state, s.send_handle), s.conn.conn)) (v.labelled, refl)))
        (λ s'. Kept-weaken x (accounted x s) total next _ s' same' (omega arith))
        (λ s'. Kept-weaken x (accounted x s) total next _ s' same' (omega arith))
  run_item-Kept x total new_client s v room same =
      (same_core s _ v refl refl refl refl, omega (arith, same), omega arith)
  run_item-Kept x total client_left s v room same =
      if-After _ (is_zero (wrap_i32 (s.client_count -ℤ pos 1))) _ _
        (same_core s _ v refl refl refl refl, omega (arith, same), omega arith)
        (same_core s _ v refl refl refl refl, omega (arith, same), omega arith)

  run_received-Kept :
      (x : ℕ) (r : Received WorkItem) (s : ClientService hpack)
      → Inv s
      → s.conn.state.next_stream_id + 2 < 2 ^ 32
      → Front s.work_queue r
      → AfterTurn (Kept x (accounted x s) (s.conn.state.next_stream_id + 2)) (run_received s r)
  run_received-Kept x (received item queue) s v room front =
      let s' : ClientService hpack = record s { work_queue = queue } in
      let whole : count x (asked_in s.work_queue.queue)
          ≡ count x (asked item) + count x (asked_in queue.queue) =
        rw front (count-append x (asked item) (asked_in queue.queue)) in
      run_item-Kept x (accounted x s) item s' (same_core s s' v refl refl refl refl) room
        (omega (arith, whole))
  run_received-Kept x disconnected s v room front = (v, refl, omega arith)
  run_received-Kept x waiting s v room front = tt

  -- If the invariant holds and there is room for another stream identifier, a turn of the service
  -- that returns, with or without an error, keeps the invariant, takes no more than one identifier,
  -- and keeps for every channel how often it stands among the channels that were answered, those that
  -- wait for an answer, and those of requests that are still queued: no request is lost, and none is
  -- answered twice.
  pub run_once-Kept :
      (x : ℕ) (s : ClientService hpack)
      → Inv s
      → s.conn.state.next_stream_id + 2 < 2 ^ 32
      → AfterTurn (Kept x (accounted x s) (s.conn.state.next_stream_id + 2)) (run_once s)
  unfolding run_once
  run_once-Kept x s v room =
      run_received-Kept x (recv s.work_queue) s v room (recv-Front s.work_queue)
