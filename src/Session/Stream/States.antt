-- ===== src/Session/Stream/States.antt =====
-- http/session.rs: the states that closing a stream leads to.
use solicit.Base.{◌≡◌, arith, true, false, ℕ, ◌≤◌, List, length}
use solicit.Session.Stream.{
  Stream, StreamState, DataResult, ok, err, chunk, last, unavailable, local_closed, remote_closed,
  fully_closed, after_close_local, after_close_remote, close_local, close_remote, is_closed,
  is_closed_local, is_closed_remote, default_stream,
}

-- A chunk of `n` octets lies within a buffer.
abbrev pub Within : ℕ → DataResult → Type 0
Within size (ok (chunk n)) = n ≤ size
Within size (ok (last n)) = n ≤ size
Within size (ok unavailable) = Unit {0}
Within size (err e) = Unit {0}

-- What the documentation of the trait asks of an implementation: `set_state` sets the state, and
-- the octets of a chunk were placed into the buffer.
pub record IsLawful {S : Type 0} (t : Stream S) : Type 0 where
  pub state-set_state : (st : StreamState) (s : S) → t.state (t.set_state st s) ≡ st
  pub chunk_within :
      (buf : List ℕ) (s : S) → Within (length (t.get_data_chunk buf s).1) (t.get_data_chunk buf s).2

module _ {S : Type 0} ⦃t : Stream S⦄ (lawful : IsLawful t) where
  -- If both ends of a stream are open, closing one does not close the stream, and closing both, in
  -- either order, does, where `set_state` keeps its contract.
  pub close_both :
      (s : S)
      → remote_closed (t.state s) ≡ false
      → local_closed (t.state s) ≡ false
      → (is_closed (close_remote (close_local s)) ≡ true)
        × (is_closed (close_local (close_remote s)) ≡ true)
        × (is_closed (close_local s) ≡ false)
        × (is_closed (close_remote s) ≡ false)
  unfolding is_closed close_local close_remote
  close_both s r l = (
    rw (lawful.state-set_state, lawful.state-set_state) (both_states_local (t.state s) r l),
    rw (lawful.state-set_state, lawful.state-set_state) (both_states_remote (t.state s) r l),
    rw (lawful.state-set_state) (one_state_local (t.state s) r l),
    rw (lawful.state-set_state) (one_state_remote (t.state s) r l),
  )
    where
      both_states_local :
          (x : StreamState)
          → remote_closed x ≡ false
          → local_closed x ≡ false
          → fully_closed (after_close_remote (after_close_local x)) ≡ true
      both_states_local x a b = ground arith

      both_states_remote :
          (x : StreamState)
          → remote_closed x ≡ false
          → local_closed x ≡ false
          → fully_closed (after_close_local (after_close_remote x)) ≡ true
      both_states_remote x a b = ground arith

      one_state_local :
          (x : StreamState)
          → remote_closed x ≡ false
          → local_closed x ≡ false
          → fully_closed (after_close_local x) ≡ false
      one_state_local x a b = ground arith

      one_state_remote :
          (x : StreamState)
          → remote_closed x ≡ false
          → local_closed x ≡ false
          → fully_closed (after_close_remote x) ≡ false
      one_state_remote x a b = ground arith

  -- Closing one end of a stream that is closed already opens its other end again, where `set_state`
  -- keeps its contract.
  pub close_reopens :
      (s : S)
      → is_closed s ≡ true
      → (is_closed_remote (close_local s) ≡ false) × (is_closed_local (close_remote s) ≡ false)
  unfolding is_closed is_closed_remote is_closed_local close_local close_remote
  close_reopens s h =
      (rw (lawful.state-set_state) (ground arith), rw (lawful.state-set_state) (ground arith))
