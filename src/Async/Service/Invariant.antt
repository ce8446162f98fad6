-- ===== src/Async/Service/Invariant.antt =====
-- client/async.rs: what every turn of the service keeps.
pub mod Closing
pub mod Turns
use solicit.Base.{
  OnValue, bind-OnValue, OnValue-any, ℕ, suc, ◌+◌, ◌%◌, ◌^◌, ◌≤◌, ◌<◌, ◌≡◌, refl, sym, ◌∙◌, arith,
  ap, true, false, List, [], ◌∷◌, ◌++◌, Option, none, some, ◌==◌, if◌then◌else◌, length, map,
  Bool-cases, Option-cases, inl, inr, ==_iff, ==_refl, Exec, value, panic, ltb,
}
use solicit.Http.Run.{Run, ok, err, fault, M}
use solicit.Session.Stream.{DefaultStream, default_stream, is_closed_local}
use solicit.Session.State.{lookup, insert, insert_outgoing, change_stream, get_stream_ref}
use solicit.Session.State.Maps.{Distinct, AllKeys, insert-Distinct, lookup-insert}
use solicit.Session.State.Labels.{labels}
use solicit.Priority.{EndStream, yes_end, no_end}
use solicit.Connection.Defs.{Hpack, HttpConnection}
use solicit.Connection.Send.{send_headers}
use solicit.Connection.Keeps.{After, Run-cases}
use solicit.Client.{World, RequestStream}
use solicit.Client
use solicit.Client.Labels.{Labelled}
use solicit.Async.Sender.{ChannelFrameSenderHandle, channel_send}
use solicit.Async.Receiver.{ChannelFrameReceiverHandle}
use solicit.Async.Service.{
  AsyncRequest, WorkItem, request, handle_frame_item, send_data_item, new_client, client_left,
  ClientService, put_back, on_conn,
}
use solicit.Async.Service.Requests.{
  create_request, register, send_request, unwrap_ok, send_first, queue_next_request, handle_closed,
  with_closed,
}
use solicit.Async.Service.Chans.{
  own, note, insert-own, length-insert, lookup-above, insert-AllKeys, AllKeys-weaken, count, txs,
  count-insert, count-append,
}

-- The channels of the requests among work items.
abbrev pub asked : WorkItem → List ℕ
asked (request r) = r.tx ∷ []
asked handle_frame_item = []
asked send_data_item = []
asked new_client = []
asked client_left = []

abbrev pub asked_in : List WorkItem → List ℕ
asked_in [] = []
asked_in (item ∷ items) = asked item ++ asked_in items

module _ {hpack : Hpack} where
  -- A channel waits for exactly the streams of the session, each stream knows its identifier, the
  -- counter of the requests without an answer is their number, and it is within the limit.
  pub record Inv (s : ClientService hpack) : Type 0 where
    pub labelled : labels s.conn.state.streams ≡ own s.chans
    pub distinct : Distinct s.chans
    pub below : AllKeys (λ k. k < s.conn.state.next_stream_id) s.chans
    pub counted : s.outstanding_reqs ≡ length s.chans
    pub bounded : s.outstanding_reqs ≤ s.limit
    pub small : s.limit < 2 ^ 32

  -- How often the channel is among those answered, those that wait for an answer, those of requests
  -- that were not sent yet, and those of requests that still wait in the work queue.
  abbrev pub accounted : ℕ → ClientService hpack → ℕ
  accounted x s =
      count x (map (λ e. e.0) s.answered)
      + (count x (txs s.chans) + count x (map (λ r. r.tx) s.request_queue))
      + count x (asked_in s.work_queue.queue)

  -- The invariant, so many places of the channel, and a bound on the next stream identifier.
  abbrev pub Kept : ℕ → ℕ → ℕ → ClientService hpack → Type 0
  Kept x total next s = Inv s × (accounted x s ≡ total) × (s.conn.state.next_stream_id ≤ next)

  -- A method of the connection that keeps the streams keeps the service.
  pub put_back-Kept :
      {A : Type 0} (x : ℕ) (s : ClientService hpack)
      (r : Run (ChannelFrameReceiverHandle × World hpack DefaultStream ChannelFrameSenderHandle) A)
      → Inv s
      → After (λ w. Labelled (own s.chans) s.conn.state.next_stream_id w.1.0.0) r
      → After (Kept x (accounted x s) s.conn.state.next_stream_id) (put_back s r)
  put_back-Kept x s (ok a (rx, ((st, tx), c))) v (h, n) = (
    record {
      labelled = h;
      distinct = v.distinct;
      below = rw n v.below;
      counted = v.counted;
      bounded = v.bounded;
      small = v.small;
    },
    refl,
    omega arith,
  )
  put_back-Kept x s (err e (rx, ((st, tx), c))) v (h, n) = (
    record {
      labelled = h;
      distinct = v.distinct;
      below = rw n v.below;
      counted = v.counted;
      bounded = v.bounded;
      small = v.small;
    },
    refl,
    omega arith,
  )
  put_back-Kept x s fault v h = tt

  register-Kept :
      (x tx : ℕ) (stream : DefaultStream) (s : ClientService hpack)
      (rx : ChannelFrameReceiverHandle) (out : ChannelFrameSenderHandle) (c : HttpConnection hpack)
      → Inv s
      → s.outstanding_reqs < s.limit
      → s.conn.state.next_stream_id + 2 < 2 ^ 32
      → OnValue (Kept x (count x (tx ∷ []) + accounted x s) (s.conn.state.next_stream_id + 2)) (
          register tx (
            (insert_outgoing s.conn.state stream).1,
            record s {
              recv_handle = rx;
              send_handle = out;
              conn = record { conn = c; state = (insert_outgoing s.conn.state stream).0 };
            },
          ))
  unfolding register insert_outgoing get_stream_ref change_stream
  register-Kept x tx stream s rx out c v free room =
      let id = s.conn.state.next_stream_id in
      let wrap : (id + 2) % 2 ^ 32 ≡ id + 2 = omega arith in
      let absent : lookup id s.chans ≡ none = lookup-above id id s.chans v.below (omega arith) in
      let found : lookup id (insert id stream s.conn.state.streams) ≡ some stream =
        lookup-insert id id stream s.conn.state.streams ∙ rw (==_refl id) refl in
      rw found (
        record {
          labelled = insert-own id tx stream s.conn.state.streams s.chans absent v.labelled;
          distinct = insert-Distinct id tx s.chans v.distinct;
          below = rw wrap (
              insert-AllKeys (λ k. k < id + 2) id tx s.chans (omega arith)
                (AllKeys-weaken (λ k. k < id) (λ k. k < id + 2) s.chans (λ j h. omega arith)
                  v.below));
          counted = omega (arith, length-insert id tx s.chans absent);
          bounded = omega arith;
          small = v.small;
        },
        ground (arith, count-insert x id tx s.chans absent),
        omega arith,
      )

  send_request-Kept :
      (x : ℕ) (r : AsyncRequest) (s : ClientService hpack)
      → Inv s
      → s.outstanding_reqs < s.limit
      → s.conn.state.next_stream_id + 2 < 2 ^ 32
      → OnValue
          (Kept x (count x (r.tx ∷ []) + accounted x s) (s.conn.state.next_stream_id + 2))
          (send_request r s)
  unfolding send_request on_conn Client.start_request insert_outgoing create_request
  send_request-Kept x r s v free room =
      let req = (create_request s r).0 in
      let end : EndStream = if is_closed_local req.stream then yes_end else no_end in
      elim (Run-cases (
        send_headers hpack req.headers s.conn.state.next_stream_id end
          (s.conn.conn, s.send_handle))) [
            | inl (a, (c, out), e) ↦
                rw e (register-Kept x r.tx req.stream s s.recv_handle out c v free room)
            | inr (inl (n, w, e)) ↦ rw e tt
            | inr (inr e) ↦ rw e tt
          ]

  send_first-Kept :
      (x : ℕ) (queue : List AsyncRequest) (s : ClientService hpack)
      → s.request_queue ≡ queue
      → Inv s
      → s.outstanding_reqs < s.limit
      → s.conn.state.next_stream_id + 2 < 2 ^ 32
      → OnValue (Kept x (accounted x s) (s.conn.state.next_stream_id + 2)) (send_first queue s)
  unfolding send_first
  send_first-Kept x [] s q v free room = (v, refl, omega arith)
  send_first-Kept x (r ∷ rest) s q v free room =
      let s' : ClientService hpack = record s { request_queue = rest } in
      let v' : Inv s' = record {
        labelled = v.labelled;
        distinct = v.distinct;
        below = v.below;
        counted = v.counted;
        bounded = v.bounded;
        small = v.small;
      } in
      let total : count x (r.tx ∷ []) + accounted x s' ≡ accounted x s = rw q (ground arith) in
      rw⁻¹ total (send_request-Kept x r s' v' free room)

  pub queue_next_request-Kept :
      (x : ℕ) (s : ClientService hpack)
      → Inv s
      → s.conn.state.next_stream_id + 2 < 2 ^ 32
      → OnValue (Kept x (accounted x s) (s.conn.state.next_stream_id + 2)) (queue_next_request s)
  unfolding queue_next_request
  queue_next_request-Kept x s v room = elim (Bool-cases (ltb s.outstanding_reqs s.limit)) [
    | inl e ↦ rw e (send_first-Kept x s.request_queue s refl v (ground arith) room)
    | inr e ↦ rw e (v, refl, omega arith)
  ]
