-- ===== src/Session/State.antt =====
-- http/session.rs: the streams of a session. A `HashMap` is an association list with distinct keys;
-- its order is that of the iterator.
pub mod Maps
pub mod Ids
pub mod Closed
pub mod Labels
use solicit.Base.{
  ℕ, ◌+◌, ◌%◌, ◌^◌, Bool, true, false, not, List, [], ◌∷◌, ◌++◌, Option, none, some, ◌==◌,
  if◌then◌else◌, Exec, value, panic, ◌>>=◌, unwrap,
}
use solicit.Session.Stream.{Stream, is_closed}

pub data Parity : Type 0 where
  even odd : Parity

unfoldable pub parity_of : ℕ → Parity
parity_of stream_id = if stream_id % 2 == 0 then even else odd

-- `==` of the derived `PartialEq`.
abbrev pub same_parity : Parity → Parity → Bool
same_parity even even = true
same_parity odd odd = true
same_parity _ _ = false

-- `HashMap::get`, `insert` and `remove`.
module _ {ℓ} {V : Type ℓ} where
  unfoldable pub lookup : ℕ → List (ℕ × V) → Option V
  lookup id [] = none
  lookup id ((i, entry) ∷ rest) = if i == id then some entry else lookup id rest

  unfoldable pub insert : ℕ → V → List (ℕ × V) → List (ℕ × V)
  insert k v [] = (k, v) ∷ []
  insert k v ((j, w) ∷ m) = if j == k then (j, v) ∷ m else (j, w) ∷ insert k v m

  unfoldable pub remove : ℕ → List (ℕ × V) → List (ℕ × V)
  remove k [] = []
  remove k ((j, v) ∷ m) = if j == k then remove k m else (j, v) ∷ remove k m

  -- A change through `get_mut`.
  unfoldable pub update : ℕ → (V → V) → List (ℕ × V) → List (ℕ × V)
  update k f [] = []
  update k f ((j, v) ∷ m) = (if j == k then (j, f v) else (j, v)) ∷ update k f m

pub record SessionState (S : Type 0) : Type 0 where
  pub streams : List (ℕ × S)
  pub next_stream_id : ℕ
  pub outgoing_parity : Parity

module _ {S : Type 0} where
  unfoldable pub validate_incoming_parity : SessionState S → ℕ → Bool
  validate_incoming_parity st stream_id = not (same_parity (parity_of stream_id) st.outgoing_parity)

  unfoldable pub insert_outgoing : SessionState S → S → SessionState S × ℕ
  insert_outgoing st stream =
      let id = st.next_stream_id in
      (
        record st {
          streams = insert id stream st.streams;
          next_stream_id = (st.next_stream_id + 2) % 2 ^ 32;
        },
        id,
      )

  -- The state after the call, and whether it was `Ok`.
  unfoldable pub insert_incoming : SessionState S → ℕ → S → SessionState S × Bool
  insert_incoming st stream_id stream =
      if validate_incoming_parity st stream_id
      then (record st { streams = insert stream_id stream st.streams }, true)
      else (st, false)

  unfoldable pub get_stream_ref : SessionState S → ℕ → Option S
  get_stream_ref st stream_id = lookup stream_id st.streams

  -- `get_stream_mut`, with what is then done to the stream.
  unfoldable pub change_stream : SessionState S → ℕ → (S → S) → SessionState S
  change_stream st stream_id f = record st { streams = update stream_id f st.streams }

  unfoldable pub remove_stream : SessionState S → ℕ → SessionState S × Option S
  remove_stream st stream_id =
      (record st { streams = remove stream_id st.streams }, lookup stream_id st.streams)

  -- The loop of `get_closed` over the identifiers found, `unwrap` included.
  unfoldable pub remove_all : List ℕ → SessionState S → Exec (SessionState S × List S)
  unfolding remove_stream
  remove_all [] st = value (st, [])
  remove_all (i ∷ ids) st = do
    let (st', found) = remove_stream st i
    s ← unwrap found
    (st'', rest) ← remove_all ids st'
    value (st'', s ∷ rest)

-- `DefaultSessionState::<Client, S>::new` and `DefaultSessionState::<Server, S>::new`.
unfoldable pub client_state : (S : Type 0) → SessionState S
client_state S = record { streams = []; next_stream_id = 1; outgoing_parity = odd }

unfoldable pub server_state : (S : Type 0) → SessionState S
server_state S = record { streams = []; next_stream_id = 2; outgoing_parity = even }

module _ {S : Type 0} ⦃t : Stream S⦄ where
  unfoldable pub closed_ids : List (ℕ × S) → List ℕ
  closed_ids [] = []
  closed_ids ((id, s) ∷ m) = if is_closed s then id ∷ closed_ids m else closed_ids m

  unfoldable pub get_closed : SessionState S → Exec (SessionState S × List S)
  get_closed st = remove_all (closed_ids st.streams) st
