-- ===== src/Priority/Pending.antt =====
-- http/priority.rs: how much is left to send.
use solicit.Base.{ℕ, suc, ◌+◌, List, [], ◌∷◌, length, if◌then◌else◌}
use solicit.Session.Stream.{DefaultStream, local_closed}
use solicit.Session.Stream.Chunks.{left_over}

-- One for a stream that is open for writes, and one for each octet that it has left.
abbrev pub pending_of : DefaultStream → ℕ
pending_of s = if local_closed s.state then 0 else suc (length (left_over s.outgoing))

abbrev pub pending : List (ℕ × DefaultStream) → ℕ
pending [] = 0
pending ((id, s) ∷ m) = pending_of s + pending m
