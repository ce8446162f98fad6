-- ===== src/Async/Channel.antt =====
-- `std::sync::mpsc`: a channel that several senders and one receiver share.
use solicit.Http.Error.{HttpError}
use solicit.Http.Run.{Run, ok, err, fault, M}
use solicit.Base.{
  ◌≡◌, refl, sym, ℕ, zero, suc, ◌+◌, ◌-◌, Bool, true, false, List, [], ◌∷◌, ◌++◌, Option, none,
  some,
}

-- What was sent and not yet received, the number of senders that are left, and whether the receiver
-- is still there.
pub record Channel {ℓ} (A : Type ℓ) : Type ℓ where
  pub queue : List A
  pub senders : ℕ
  pub receiving : Bool

-- `mpsc::channel`
unfoldable pub channel {ℓ} : {A : Type ℓ} → Channel A
channel = record { queue = []; senders = 1; receiving = true }

-- A `recv` gets a value, fails with no senders left, or has to wait.
pub data Received {ℓ} (A : Type ℓ) : Type ℓ where
  received : A → Channel A → Received A
  disconnected waiting : Received A

module _ {ℓ} {A : Type ℓ} where
  -- `Sender::send`; `none` is the error that the receiver is gone.
  abbrev pub send_if : Bool → A → Channel A → Option (Channel A)
  send_if true a c = some (record c { queue = c.queue ++ a ∷ [] })
  send_if false a c = none

  unfoldable pub send : A → Channel A → Option (Channel A)
  send a c = send_if c.receiving a c

  -- What `recv` does, for the values in the queue and the number of senders.
  abbrev pub recv_from : List A → ℕ → Channel A → Received A
  recv_from (a ∷ rest) senders c = received a (record c { queue = rest })
  recv_from [] zero c = disconnected
  recv_from [] (suc senders) c = waiting

  unfoldable pub recv : Channel A → Received A
  recv c = recv_from c.queue c.senders c

  -- `Sender::clone` and the drop of a sender.
  unfoldable pub add_sender : Channel A → Channel A
  add_sender c = record c { senders = c.senders + 1 }

  unfoldable pub drop_sender : Channel A → Channel A
  drop_sender c = record c { senders = c.senders - 1 }

  -- `try!` of a `send` and of a `recv` whose error is mapped. A `recv` that has to wait does not
  -- return, which is a fault.
  abbrev pub sent_or : HttpError → Channel A → Option (Channel A) → Run (Channel A) (Unit {0})
  sent_or e c (some c') = ok tt c'
  sent_or e c none = err e c

  unfoldable pub send_or : HttpError → A → M (Channel A) (Unit {0})
  unfolding send
  send_or e a c = sent_or e c (send a c)

  abbrev pub received_or : HttpError → Channel A → Received A → Run (Channel A) A
  received_or e c (received a c') = ok a c'
  received_or e c disconnected = err e c
  received_or e c waiting = fault

  unfoldable pub recv_or : HttpError → M (Channel A) A
  unfolding recv
  recv_or e c = received_or e c (recv c)

  -- A value that is received is the first one of the queue.
  abbrev pub Front : Channel A → Received A → Type ℓ
  Front c (received a c') = c.queue ≡ a ∷ c'.queue
  Front c disconnected = Unit {ℓ}
  Front c waiting = Unit {ℓ}

  recv_from-Front :
      (items : List A) (senders : ℕ) (c : Channel A)
      → c.queue ≡ items
      → Front c (recv_from items senders c)
  recv_from-Front (a ∷ rest) senders c h = h
  recv_from-Front [] zero c h = tt
  recv_from-Front [] (suc senders) c h = tt

  pub recv-Front : (c : Channel A) → Front c (recv c)
  unfolding recv
  recv-Front c = recv_from-Front c.queue c.senders c refl

  send_if-queue :
      (there : Bool) (a : A) (c c' : Channel A)
      → send_if there a c ≡ some c'
      → c'.queue ≡ c.queue ++ a ∷ []
  send_if-queue true a c c' h =
      let same : record c { queue = c.queue ++ a ∷ [] } ≡ c' = cc in rw (sym same) refl
  send_if-queue false a c c' h = absurd cc

  -- A value that is sent stands behind the others.
  pub send-queue : (a : A) (c c' : Channel A) → send a c ≡ some c' → c'.queue ≡ c.queue ++ a ∷ []
  unfolding send
  send-queue a c c' h = send_if-queue c.receiving a c c' h
