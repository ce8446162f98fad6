-- ===== src/Async/Service/Backlog.antt =====
-- client/async.rs: a frame is there for each work item that has one handled.
use solicit.Base.{
  OnValue, bind-OnValue, OnValue-any, ℕ, suc, ◌+◌, ◌≤◌, ◌≡◌, refl, ap, arith, inl, inr, Bool-cases,
  List, [], ◌∷◌, ◌++◌, length, ◌>>=◌, ltb, unwrap,
}
use solicit.Base.Int.{pos, wrap_i32, ◌-ℤ◌}
use solicit.Http.Run.{Run, ok, err, fault, M}
use solicit.Connection.Defs.{Hpack}
use solicit.Connection.Send.{on_second}
use solicit.Connection.Keeps.{After, Keeps, followed_by-After, lift-Keeps}
use solicit.Connection.Handle.Takes.{
  on_second-After, handle_next_frame-After, expect_settings-After,
}
use solicit.Connection.HttpFrame.{HttpFrame, from_raw}
use solicit.Http.Error.{HttpResult, success, failure}
use solicit.Frame.Raw.{RawFrame}
use solicit.Transport.{from_result}
use solicit.Session.Stream.{DefaultStream, default_stream}
use solicit.Session.State.{get_stream_ref, get_closed, lookup}
use solicit.Client.{World, client_session}
use solicit.Client
use solicit.Async.Channel.{
  Channel, Received, received, disconnected, waiting, recv, recv_or, received_or, Front, recv-Front,
}
use solicit.Async.Sender.{ChannelFrameSenderHandle, channel_send}
use solicit.Async.Receiver.{
  ChannelFrameReceiverHandle, channel_receive, recv_frame, taken, unable_to_read,
}
use solicit.Async.Service.{
  AsyncRequest, WorkItem, request, handle_frame_item, send_data_item, new_client, client_left,
  ClientService, Turn, goes_on, stops, waits, panics, on_conn, put_back,
}
use solicit.Async.Service.Requests.{
  create_request, register, send_request, unwrap_ok, send_first, queue_next_request, send_response,
  send_responses, handle_closed, one_less,
}
use solicit.Async.Service.Loop.{is_zero, handle_frame, run_item, run_once, run_received}
use solicit.Async.Service.Invariant.Turns.{AfterTurn, returns-After, after_conn-After, if-After}

-- The frames that a work item has handled.
abbrev pub frames_of : WorkItem → ℕ
frames_of handle_frame_item = 1
frames_of (request r) = 0
frames_of send_data_item = 0
frames_of new_client = 0
frames_of client_left = 0

abbrev pub frames_in : List WorkItem → ℕ
frames_in [] = 0
frames_in (item ∷ items) = frames_of item + frames_in items

-- At least so many frames wait in the channel of the handle.
abbrev pub Holds : ℕ → ChannelFrameReceiverHandle → Type 0
Holds n handle = n ≤ length handle.rx.queue

taken-Holds :
    (n : ℕ) (handle : ChannelFrameReceiverHandle) (r : Received RawFrame)
    → Front handle.rx r
    → suc n ≤ length handle.rx.queue
    → After (Holds n) (taken handle.raw (received_or unable_to_read handle.rx r))
taken-Holds n handle (received raw c) front h =
    let one : length handle.rx.queue ≡ suc (length c.queue) = ap length front in omega arith
taken-Holds n handle disconnected front h = omega arith
taken-Holds n handle waiting front h = tt

from_result-Holds : (n : ℕ) (r : HttpResult HttpFrame) → Keeps (Holds n) (from_result r)
from_result-Holds n (success f) w h = h
from_result-Holds n (failure e) w h = h

-- Receiving a frame takes one of them at most.
recv_frame-Holds :
    (n : ℕ) (handle : ChannelFrameReceiverHandle)
    → Holds (suc n) handle
    → After (Holds n) (recv_frame handle)
unfolding recv_frame recv_or
recv_frame-Holds n handle h =
    followed_by-After (Holds n) _ _ (taken-Holds n handle (recv handle.rx) (recv-Front handle.rx) h)
      λ raw w k.
        followed_by-After (Holds n) _ _ (lift-Keeps (Holds n) (from_raw raw) w k)
          λ r. from_result-Holds n r

module _ {hpack : Hpack} where
  -- The work queue, and at least so many frames for it.
  abbrev pub Ready : Channel WorkItem → ℕ → ClientService hpack → Type 0
  Ready q n s = (s.work_queue ≡ q) × Holds n s.recv_handle

  put_back-Ready :
      {A : Type 0} (q : Channel WorkItem) (n : ℕ) (s : ClientService hpack)
      (r : Run (ChannelFrameReceiverHandle × World hpack DefaultStream ChannelFrameSenderHandle) A)
      → s.work_queue ≡ q
      → After (λ w. Holds n w.0) r
      → After (Ready q n) (put_back s r)
  put_back-Ready q n s (ok a (rx, ((st, tx), c))) same h = (same, h)
  put_back-Ready q n s (err e (rx, ((st, tx), c))) same h = (same, h)
  put_back-Ready q n s fault same h = tt

  -- A method that only sends leaves the frames.
  sends-Ready :
      {A : Type 0} (q : Channel WorkItem) (n : ℕ)
      (m : M (World hpack DefaultStream ChannelFrameSenderHandle) A)
      → Keeps (Ready q n) (on_conn (on_second m))
  unfolding on_conn
  sends-Ready q n m s (same, h) =
      put_back-Ready q n s _ same (
        on_second-After (Holds n) m (s.recv_handle, ((s.conn.state, s.send_handle), s.conn.conn)) h)

  unwrap_ok-Ready :
      {A : Type 0} (q : Channel WorkItem) (n : ℕ) (r : Run (ClientService hpack) A)
      → After (Ready q n) r
      → OnValue (λ (a, s). Ready q n s) (unwrap_ok r)
  unwrap_ok-Ready q n (ok a s) h = h
  unwrap_ok-Ready q n (err e s) h = tt
  unwrap_ok-Ready q n fault h = tt

  send_request-Ready :
      (q : Channel WorkItem) (n : ℕ) (r : AsyncRequest) (s : ClientService hpack)
      → Ready q n s
      → OnValue (Ready q n) (send_request r s)
  unfolding send_request register
  send_request-Ready q n r s h =
      bind-OnValue (λ (a, s'). Ready q n s') (Ready q n)
        (unwrap_ok (on_conn (on_second (Client.start_request hpack (create_request s r).0)) s)) _
        (unwrap_ok-Ready q n _
          (sends-Ready q n (Client.start_request hpack (create_request s r).0) s h))
        λ (id, s') h'.
          bind-OnValue (λ a. Unit {0}) (Ready q n) (unwrap (get_stream_ref s'.conn.state id)) _
            (OnValue-any (unwrap (get_stream_ref s'.conn.state id))) λ a u. h'

  send_first-Ready :
      (q : Channel WorkItem) (n : ℕ) (requests : List AsyncRequest) (s : ClientService hpack)
      → Ready q n s
      → OnValue (Ready q n) (send_first requests s)
  unfolding send_first
  send_first-Ready q n [] s h = h
  send_first-Ready q n (r ∷ rest) s h =
      send_request-Ready q n r (record s { request_queue = rest }) h

  queue_next_request-Ready :
      (q : Channel WorkItem) (n : ℕ) (s : ClientService hpack)
      → Ready q n s
      → OnValue (Ready q n) (queue_next_request s)
  unfolding queue_next_request
  queue_next_request-Ready q n s h = elim (Bool-cases (ltb s.outstanding_reqs s.limit)) [
    | inl e ↦ rw e (send_first-Ready q n s.request_queue s h)
    | inr e ↦ rw e h
  ]

  send_response-Ready :
      (q : Channel WorkItem) (n : ℕ) (stream : DefaultStream) (s : ClientService hpack)
      → Ready q n s
      → OnValue (Ready q n) (send_response stream s)
  unfolding send_response
  send_response-Ready q n stream s h =
      bind-OnValue (λ a. Unit {0}) (Ready q n) (unwrap stream.stream_id) _
        (OnValue-any (unwrap stream.stream_id))
        λ id u.
          bind-OnValue (λ a. Unit {0}) (Ready q n) (unwrap (lookup id s.chans)) _
            (OnValue-any (unwrap (lookup id s.chans)))
            λ tx u'.
              bind-OnValue (λ a. Unit {0}) (Ready q n) (unwrap stream.headers) _
                (OnValue-any (unwrap stream.headers)) λ hs u''. h

  send_responses-Ready :
      (q : Channel WorkItem) (n : ℕ) (streams : List DefaultStream) (s : ClientService hpack)
      → Ready q n s
      → OnValue (Ready q n) (send_responses streams s)
  unfolding send_responses
  send_responses-Ready q n [] s h = h
  send_responses-Ready q n (stream ∷ streams) s h =
      bind-OnValue (Ready q n) (Ready q n) (send_response stream s) _
        (send_response-Ready q n stream s h) λ s'. send_responses-Ready q n streams (one_less s')

  handle_closed-Ready :
      (q : Channel WorkItem) (n : ℕ) (s : ClientService hpack)
      → Ready q n s
      → OnValue (Ready q n) (handle_closed s)
  unfolding handle_closed
  handle_closed-Ready q n s h =
      bind-OnValue (λ a. Unit {0}) (Ready q n) (get_closed s.conn.state) _
        (OnValue-any (get_closed s.conn.state))
        λ (st, closed) u.
          send_responses-Ready q n closed (record s { conn = record s.conn { state = st } }) h

  run_item-Ready :
      (q : Channel WorkItem) (n : ℕ) (item : WorkItem) (s : ClientService hpack)
      → s.work_queue ≡ q
      → Holds (frames_of item + n) s.recv_handle
      → AfterTurn (Ready q n) (run_item item s)
  unfolding run_item on_conn handle_frame Client.handle_next_frame Client.expect_settings
  run_item-Ready q n (request r) s same h =
      let k : Holds n s.recv_handle = omega arith in
      returns-After (Ready q n) _ (
        queue_next_request-Ready q n (record s { request_queue = s.request_queue ++ r ∷ [] })
          (same, k))
  run_item-Ready q n handle_frame_item s same h =
      let one : Holds (suc n) s.recv_handle = omega arith in
      let w : World hpack DefaultStream ChannelFrameSenderHandle =
        ((s.conn.state, s.send_handle), s.conn.conn) in
      if-After (Ready q n) s.initialized _ _
        (after_conn-After (Ready q n) (Ready q n) (on_conn (Client.handle_next_frame hpack) s) _
          (put_back-Ready q n s _ same (
            handle_next_frame-After hpack (client_session hpack) (Holds n) (Holds (suc n))
              (recv_frame-Holds n) s.recv_handle w one))
          (λ s' k. k)
          (λ s' k. returns-After (Ready q n) (handle_closed s' >>= queue_next_request) (
            bind-OnValue (Ready q n) (Ready q n) (handle_closed s') queue_next_request
              (handle_closed-Ready q n s' k) (queue_next_request-Ready q n))))
        (after_conn-After (Ready q n) (Ready q n) (on_conn (Client.expect_settings hpack) s) _
          (put_back-Ready q n s _ same (
            expect_settings-After hpack (client_session hpack) (Holds n) (Holds (suc n))
              (recv_frame-Holds n) s.recv_handle w one))
          (λ s' k. k) (λ s' k. k))
  run_item-Ready q n send_data_item s same h =
      let k : Holds n s.recv_handle = omega arith in
      after_conn-After (Ready q n) (Ready q n) (on_conn (on_second (Client.send_next_data hpack)) s)
        _ (sends-Ready q n (Client.send_next_data hpack) s (same, k)) (λ s' k. k) (λ s' k. k)
  run_item-Ready q n new_client s same h = (same, omega arith)
  run_item-Ready q n client_left s same h =
      let k : Holds n s.recv_handle = omega arith in
      if-After (Ready q n) (is_zero (wrap_i32 (s.client_count -ℤ pos 1))) _ _ (same, k) (same, k)

  -- A frame for each work item that has one handled, and so many more.
  abbrev pub Backed : ℕ → ClientService hpack → Type 0
  Backed more s = Holds (frames_in s.work_queue.queue + more) s.recv_handle

  Ready-Backed :
      (more : ℕ) (q : Channel WorkItem) (r : Turn (ClientService hpack))
      → AfterTurn (Ready q (frames_in q.queue + more)) r
      → AfterTurn (Backed more) r
  Ready-Backed more q (goes_on s) (same, h) = rw same h
  Ready-Backed more q (stops e s) (same, h) = rw same h
  Ready-Backed more q waits h = tt
  Ready-Backed more q panics h = tt

  run_received-Backed :
      (more : ℕ) (s : ClientService hpack) (r : Received WorkItem)
      → Front s.work_queue r
      → Backed more s
      → AfterTurn (Backed more) (run_received s r)
  run_received-Backed more s (received item queue) front h =
      let same : frames_in s.work_queue.queue ≡ frames_of item + frames_in queue.queue =
        ap frames_in front in
      Ready-Backed more queue _ (
        run_item-Ready queue (frames_in queue.queue + more) item (record s { work_queue = queue })
          refl (omega arith))
  run_received-Backed more s disconnected front h = h
  run_received-Backed more s waiting front h = tt

  pub run_once-Backed :
      (more : ℕ) (s : ClientService hpack) → Backed more s → AfterTurn (Backed more) (run_once s)
  unfolding run_once
  run_once-Backed more s h =
      run_received-Backed more s (recv s.work_queue) (recv-Front s.work_queue) h
