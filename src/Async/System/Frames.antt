-- ===== src/Async/System/Frames.antt =====
-- client/async.rs: the service does not wait for a frame when it is told to handle one.
use solicit.Base.{
  ℕ, ◌+◌, ◌≤◌, ◌≡◌, refl, ap, arith, List, [], ◌∷◌, ◌++◌, length, length-append, Option, none, some,
  value, inl, inr, unwrap, ◌>>=◌,
}
use mathlib.Core.Path.{subst}
use solicit.Http.Run.{Run, ok, err, fault}
use solicit.Http.Response.{HttpScheme}
use solicit.Frame.Header.{unpack_header}
use solicit.Frame.Raw.{RawFrame, raw_from}
use solicit.Connection.Defs.{Hpack}
use solicit.Connection.Keeps.{Run-cases, Exec-cases}
use solicit.Transport.{TransportStream, read_exact}
use solicit.Session.State.{client_state}
use solicit.Client.{with_connection}
use solicit.Async.Channel.{
  Channel, channel, received, recv, recv_from, send, send_or, send-queue, sent_or, add_sender,
  drop_sender, Front, recv-Front,
}
use solicit.Async.Sender
use solicit.Async.Receiver
use solicit.Async.Receiver.{unable_to_read, read_next}
use solicit.Async.Service.{
  WorkItem, handle_frame_item, send_data_item, client_left, new_client, new_service,
}
use solicit.Async.Service.Backlog.{frames_of, frames_in, Backed, run_once-Backed}
use solicit.Async.Service.Invariant.Turns.{AfterTurn}
use solicit.Async.Front.{Client, clone, drop, issue, or_as_before}
use solicit.Async.System.{
  System, ThreadState, looping, notifying, halted, Step, serve, write, write_notifies, write_ends,
  read, read_notifies, read_ends, issues, clones, drops, Steps, none_yet, and_then, with_connector,
}

frames_in-snoc :
    (items : List WorkItem) (item : WorkItem)
    → frames_in (items ++ item ∷ []) ≡ frames_in items + frames_of item
frames_in-snoc [] item = omega arith
frames_in-snoc (first ∷ items) item = omega (arith, frames_in-snoc items item)

-- What a work item that is sent adds to the frames asked for.
send-frames :
    (item : WorkItem) (queue queue' : Channel WorkItem)
    → send item queue ≡ some queue'
    → frames_in queue'.queue ≡ frames_in queue.queue + frames_of item
send-frames item queue queue' sent =
    rw (send-queue item queue queue' sent) (frames_in-snoc queue.queue item)

issue-frames :
    (tx : ℕ) (method path : List ℕ) (headers : List solicit.Http.Response.Header)
    (body : Option (List ℕ)) (queue queue' : Client)
    → issue tx method path headers body queue ≡ some queue'
    → frames_in queue'.queue ≡ frames_in queue.queue
unfolding issue
issue-frames tx method path headers body queue queue' sent =
    omega (arith, send-frames _ queue queue' sent)

cloned-frames :
    (sent : Option Client) (queue queue' : Client)
    → send new_client queue ≡ sent
    → (unwrap sent >>= λ sender. value (add_sender sender)) ≡ value queue'
    → frames_in queue'.queue ≡ frames_in queue.queue
unfolding add_sender
cloned-frames none queue queue' e done = absurd cc
cloned-frames (some q) queue queue' e done =
    let same : add_sender q ≡ queue' = cc in
    rw⁻¹ same (omega (arith, send-frames new_client queue q e))

clone-frames :
    (queue queue' : Client)
    → clone queue ≡ value queue'
    → frames_in queue'.queue ≡ frames_in queue.queue
unfolding clone
clone-frames queue queue' done = cloned-frames (send new_client queue) queue queue' refl done

left-frames :
    (sent : Option Client) (queue : Client)
    → send client_left queue ≡ sent
    → frames_in (or_as_before queue sent).queue ≡ frames_in queue.queue
left-frames none queue e = refl
left-frames (some q) queue e = omega (arith, send-frames client_left queue q e)

drop-frames : (queue : Client) → frames_in (drop queue).queue ≡ frames_in queue.queue
unfolding drop drop_sender
drop-frames queue = left-frames (send client_left queue) queue refl

-- Where a frame was read, one more waits in the channel; on an error, those that waited do.
abbrev OneMore : {T : Type 0} → Channel RawFrame → Run (Channel RawFrame × T) (Unit {0}) → Type 0
OneMore c (ok a (c', t)) = length c'.queue ≡ length c.queue + 1
OneMore c (err e (c', t)) = length c'.queue ≡ length c.queue
OneMore c fault = Unit {0}

sent-OneMore :
    {T : Type 0} (c : Channel RawFrame) (raw : RawFrame) (t : T) (sent : Option (Channel RawFrame))
    → send raw c ≡ sent
    → OneMore c (solicit.Connection.Send.beside_first t (sent_or unable_to_read c sent))
sent-OneMore c raw t none e = refl
sent-OneMore c raw t (some c') e = rw (send-queue raw c c' e) (length-append c.queue (raw ∷ []))

-- The frames that the thread is about to have handled.
abbrev unannounced : ThreadState → ℕ
unannounced notifying = 1
unannounced looping = 0
unannounced halted = 0

-- A frame for each work item that has one handled, and for that which is about to be sent.
abbrev Announced : {hpack : Hpack} {T : Type 0} → System hpack T → Type 0
Announced sys = Backed (unannounced sys.reading) sys.service

module _ {T : Type 0} ⦃ts : TransportStream T⦄ where
  read_next-OneMore : (c : Channel RawFrame) (t : T) → OneMore c (read_next (c, t))
  unfolding read_next send_or
  read_next-OneMore c t = elim (Run-cases (read_exact 9 t)) [
    | inl (head, t1, e1) ↦ elim (Exec-cases (unpack_header head)) [
      | inl (h, e2) ↦ elim (Run-cases (read_exact h.0 t1)) [
        | inl (payload, t2, e3) ↦
            rw (e1, e2, e3) (sent-OneMore c (raw_from (head ++ payload)) t2 _ refl)
        | inr (inl (e, t2, e3)) ↦ rw (e1, e2, e3) refl
        | inr (inr e3) ↦ rw (e1, e2, e3) tt
      ]
      | inr e2 ↦ rw (e1, e2) tt
    ]
    | inr (inl (e, t1, e1)) ↦ rw e1 refl
    | inr (inr e1) ↦ rw e1 tt
  ]

  module _ {hpack : Hpack} where
    Step-Announced :
        (more : List ℕ) (sys sys' : System hpack T)
        → Announced sys
        → Step more sys sys'
        → Announced sys'
    unfolding drop_sender
    Step-Announced more sys sys' h (serve _ s done) =
        subst (AfterTurn (Backed (unannounced sys.reading))) done
          (run_once-Backed (unannounced sys.reading) sys.service h)
    Step-Announced more sys sys' h (write _ c w at sent) = h
    Step-Announced more sys sys' h (write_notifies _ queue at queued) =
        omega (arith, h, send-frames send_data_item sys.service.work_queue queue queued)
    Step-Announced more sys sys' h (write_ends _ e c w at failed) = h
    Step-Announced more sys sys' h (read _ c r at got) =
        let grown : length c.queue ≡ length sys.service.recv_handle.rx.queue + 1 =
          subst (OneMore sys.service.recv_handle.rx) got
            (read_next-OneMore sys.service.recv_handle.rx sys.reader) in
        let none_due : unannounced sys.reading ≡ 0 = rw at refl in omega (arith, h, grown, none_due)
    Step-Announced more sys sys' h (read_notifies _ queue at queued) =
        let one_due : unannounced sys.reading ≡ 1 = rw at refl in
        omega (arith, h, one_due, send-frames handle_frame_item sys.service.work_queue queue queued)
    Step-Announced more sys sys' h (read_ends _ e c r at failed) =
        let same : length c.queue ≡ length sys.service.recv_handle.rx.queue =
          subst (OneMore sys.service.recv_handle.rx) failed
            (read_next-OneMore sys.service.recv_handle.rx sys.reader) in
        let none_due : unannounced sys.reading ≡ 0 = rw at refl in omega (arith, h, same, none_due)
    Step-Announced more sys sys' h (issues _ tx m p hs body queue queued) =
        omega (arith, h, issue-frames tx m p hs body sys.service.work_queue queue queued)
    Step-Announced more sys sys' h (clones _ queue cloned) =
        omega (arith, h, clone-frames sys.service.work_queue queue cloned)
    Step-Announced more sys sys' h (drops _) = omega (arith, h, drop-frames sys.service.work_queue)

    Steps-Announced :
        (n : ℕ) (asks : List ℕ) (sys sys' : System hpack T)
        → Announced sys
        → Steps n asks sys sys'
        → Announced sys'
    Steps-Announced n asks sys sys' h (none_yet _) = h
    Steps-Announced n asks sys sys' h (and_then m asked more _ mid _ before last) =
        Step-Announced more mid sys' (Steps-Announced m asked sys mid h before) last

-- A channel with something in it does not block.
recv_from-received :
    {A : Type 0} (items : List A) (senders : ℕ) (c : Channel A)
    → 1 ≤ length items
    → (a : A) × (c' : Channel A) × (recv_from items senders c ≡ received a c')
recv_from-received [] senders c h = absurd (omega arith)
recv_from-received (a ∷ rest) senders c h = (a, record c { queue = rest }, refl)

module _ {hpack : Hpack} where
  -- Where a client was started over some stream, and the service, its two threads and the clients
  -- then took any number of steps, in any order, where putting a frame into the channel and sending
  -- the work item for it are two steps of the thread that reads, and an error of a thread ends it, a
  -- frame waits in the channel of the service's receiver if the next work item that the service
  -- receives is to handle a frame: receiving the frame does not block.
  pub with_connector_ready :
      {T : Type 0} ⦃ts : TransportStream T⦄ (n : ℕ) (asks : List ℕ) (receiver sender : T)
      (scheme : HttpScheme) (host : List ℕ) (sys sys' : System hpack T) (queue : Channel WorkItem)
      → with_connector hpack receiver sender scheme host ≡ some sys
      → Steps n asks sys sys'
      → recv sys'.service.work_queue ≡ received handle_frame_item queue
      → (raw : RawFrame) × (c : Channel RawFrame) × (recv sys'.service.recv_handle.rx
          ≡ received raw c)
  unfolding with_connector new_service channel send recv add_sender client_state Sender.new
      Receiver.new with_connection
  with_connector_ready n asks receiver sender scheme host sys sys' queue begun steps next =
      let same : record {
        service = record (new_service hpack receiver sender scheme host).0 {
          work_queue = record (channel {A = WorkItem}) { queue = new_client ∷ []; senders = 3 };
        };
        reader = receiver;
        writer = sender;
        reading = looping;
        writing = looping;
      }
          ≡ sys =
        cc in
      let announced : Announced sys' =
        Steps-Announced n asks sys sys' (rw⁻¹ same (omega arith)) steps in
      let front : sys'.service.work_queue.queue ≡ handle_frame_item ∷ queue.queue =
        subst (Front sys'.service.work_queue) next (recv-Front sys'.service.work_queue) in
      let asked : frames_in sys'.service.work_queue.queue ≡ 1 + frames_in queue.queue =
        ap frames_in front in
      recv_from-received sys'.service.recv_handle.rx.queue sys'.service.recv_handle.rx.senders
        sys'.service.recv_handle.rx (omega (arith, announced, asked))
