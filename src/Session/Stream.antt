-- ===== src/Session/Stream.antt =====
-- http/session.rs: streams, their states and the in-memory stream.
pub mod States
pub mod Chunks
use solicit.Base.{
  ℕ, ◌+◌, ◌-◌, Bool, true, false, List, [], ◌∷◌, ◌++◌, map, Option, none, some, ◌==◌, if◌then◌else◌,
  length, take, drop, min,
}
use solicit.Http.Error.{ErrorCode}
use solicit.Http.Response.{Header, new_header}
use solicit.Frame.Builder.{Cursor}

pub data StreamState : Type 0 where
  idle reserved_local reserved_remote open_both half_closed_remote half_closed_local closed :
      StreamState

pub data StreamDataError : Type 0 where
  closed_for_writes : StreamDataError
  other : ℕ → StreamDataError

pub data StreamDataChunk : Type 0 where
  chunk last : ℕ → StreamDataChunk
  unavailable : StreamDataChunk

-- `Result<StreamDataChunk, StreamDataError>`
pub data DataResult : Type 0 where
  ok : StreamDataChunk → DataResult
  err : StreamDataError → DataResult

-- The required methods of the trait, and `on_rst_stream`, which implementations may override.
-- `get_data_chunk` returns the stream and the buffer after it.
pub record Stream (S : Type 0) : Type 0 where
  pub new_data_chunk : List ℕ → S → S
  pub set_headers : List Header → S → S
  pub set_state : StreamState → S → S
  pub state : S → StreamState
  pub on_rst_stream : ErrorCode → S → S
  pub get_data_chunk : List ℕ → S → S × List ℕ × DataResult

abbrev pub local_closed : StreamState → Bool
local_closed half_closed_local = true
local_closed closed = true
local_closed _ = false

abbrev pub remote_closed : StreamState → Bool
remote_closed half_closed_remote = true
remote_closed closed = true
remote_closed _ = false

abbrev pub fully_closed : StreamState → Bool
fully_closed closed = true
fully_closed _ = false

-- The state after `close_local` and after `close_remote`.
abbrev pub after_close_local : StreamState → StreamState
after_close_local half_closed_remote = closed
after_close_local _ = half_closed_local

abbrev pub after_close_remote : StreamState → StreamState
after_close_remote half_closed_local = closed
after_close_remote _ = half_closed_remote

-- The provided methods of the trait.
module _ {S : Type 0} ⦃t : Stream S⦄ where
  unfoldable pub close : S → S
  close s = t.set_state closed s

  unfoldable pub close_local : S → S
  close_local s = t.set_state (after_close_local (t.state s)) s

  unfoldable pub close_remote : S → S
  close_remote s = t.set_state (after_close_remote (t.state s)) s

  unfoldable pub is_closed : S → Bool
  is_closed s = fully_closed (t.state s)

  unfoldable pub is_closed_local : S → Bool
  is_closed_local s = local_closed (t.state s)

  unfoldable pub is_closed_remote : S → Bool
  is_closed_remote s = remote_closed (t.state s)

-- The field `data` of the source is `outgoing` here.
pub record DefaultStream : Type 0 where
  pub stream_id : Option ℕ
  pub headers : Option (List Header)
  pub body : List ℕ
  pub state : StreamState
  pub outgoing : Option Cursor

unfoldable pub new : DefaultStream
new = record { stream_id = none; headers = none; body = []; state = open_both; outgoing = none }

unfoldable pub with_id : ℕ → DefaultStream
with_id stream_id = record {
  stream_id = some stream_id;
  headers = none;
  body = [];
  state = open_both;
  outgoing = none;
}

unfoldable pub set_full_data : List ℕ → DefaultStream → DefaultStream
set_full_data bytes s = record s { outgoing = some (record { buffer = bytes; position = 0 }) }

-- `Read::read` of `Cursor<Vec<u8>>`: the cursor after it, the buffer after it, the count.
unfoldable pub read : Cursor → List ℕ → Cursor × List ℕ × ℕ
read d buf =
    let left = drop d.position d.buffer in
    let n = min (length buf) (length left) in
    (record d { position = d.position + n }, take n left ++ drop n buf, n)

-- The body of `get_data_chunk` once the stream is known to be open for writes.
unfoldable pub next_chunk :
    Option Cursor → List ℕ → DefaultStream → DefaultStream × List ℕ × DataResult
unfolding read
next_chunk none buf s = (s, buf, ok unavailable)
next_chunk (some d) buf s =
    let (d', buf', n) = read d buf in
    let s' = record s { outgoing = some d' } in
    if d'.position == length d'.buffer
    then (record s' { state = after_close_local s'.state }, buf', ok (last n))
    else (s', buf', ok (chunk n))

unfoldable pub default_get_data_chunk : List ℕ → DefaultStream → DefaultStream × List ℕ × DataResult
unfolding next_chunk
default_get_data_chunk buf s =
    if local_closed s.state then (s, buf, err closed_for_writes) else next_chunk s.outgoing buf s

unfoldable pub default_new_data_chunk : List ℕ → DefaultStream → DefaultStream
default_new_data_chunk bytes s = record s { body = s.body ++ bytes }

-- The headers are copied, name and value.
unfoldable pub default_set_headers : List Header → DefaultStream → DefaultStream
unfolding new_header
default_set_headers hs s = record s { headers = some (map (λ h. new_header h.name h.value) hs) }

instance abbrev pub default_stream : Stream DefaultStream
default_stream = record {
  new_data_chunk = default_new_data_chunk;
  set_headers = default_set_headers;
  set_state = λ st s. record s { state = st };
  state = λ s. s.state;
  on_rst_stream = λ _ s. record s { state = closed };
  get_data_chunk = default_get_data_chunk;
}
