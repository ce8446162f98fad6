-- ===== src/Tests/Sessions.antt =====
-- http/session.rs and http/priority.rs at concrete sessions.
use solicit.Base.{
  ℕ, ◌+◌, ◌≤◌, ◌<◌, ◌^◌, ◌≡◌, ◌≢◌, refl, arith, ◌⊎◌, true, false, ◌==◌, if◌then◌else◌, List, [],
  ◌∷◌, ◌++◌, length, take, Option, none, some, value,
}
use solicit.Http.Error.{HttpResult}
use solicit.Session.Stream.{
  DefaultStream, default_stream, open_both, closed, default_get_data_chunk, close_local,
  close_remote, is_closed, is_closed_local, is_closed_remote,
}
use solicit.Session.Stream.Chunks.{
  left_over, Chunked, get_data_chunk-Chunked, default_stream-IsLawful,
}
use solicit.Session.Stream.States.{close_both, close_reopens}
use solicit.Session.State.{
  SessionState, odd, parity_of, client_state, insert_outgoing, insert_incoming, get_stream_ref,
  get_closed, closed_ids, lookup,
}
use solicit.Session.State.Ids.{
  Inv, client_state-Inv, insert_outgoing-fresh, insert_outgoing-Inv, insert_incoming_cases,
}
use solicit.Session.State.Maps.{Distinct}
use solicit.Session.State.Closed.{closed_at, get_closed_total}
use solicit.Priority.{DataChunk, get_next_chunk}
use solicit.Priority.Total.{ids, get_next_chunk_total}

abbrev state : SessionState DefaultStream
state = client_state DefaultStream

abbrev loaded : DefaultStream
loaded = record {
  stream_id = some 1;
  headers = none;
  body = [];
  state = open_both;
  outgoing = some (record { buffer = 1 ∷ 2 ∷ 3 ∷ []; position = 0 });
}

abbrev finished : DefaultStream
finished = record { stream_id = some 1; headers = none; body = []; state = closed; outgoing = none }

insert_outgoing-fresh_example :
    let (st', id) = insert_outgoing state loaded in
    (get_stream_ref state id ≡ none)
    × (parity_of id ≡ state.outgoing_parity)
    × (get_stream_ref st' id ≡ some loaded)
    × (get_stream_ref st' 5 ≡ (if id == 5 then some loaded else get_stream_ref state 5))
insert_outgoing-fresh_example = insert_outgoing-fresh state loaded 5 client_state-Inv

few : state.next_stream_id + 2 < 2 ^ 32
unfolding client_state
few = omega arith

insert_outgoing-Inv_example : Inv (insert_outgoing state loaded).0
insert_outgoing-Inv_example = insert_outgoing-Inv state loaded client_state-Inv few

insert_incoming_cases_example :
    let (st', accepted) = insert_incoming state 2 loaded in
    ((parity_of 2 ≡ state.outgoing_parity) × (accepted ≡ false) × (st' ≡ state))
    ⊎ ((parity_of 2 ≢ state.outgoing_parity)
        × (accepted ≡ true)
        × (get_stream_ref st' 2 ≡ (if 2 == 2 then some loaded else get_stream_ref state 2)))
insert_incoming_cases_example = insert_incoming_cases state 2 loaded 2

abbrev two : SessionState DefaultStream
two = record {
  streams = (1, finished) ∷ (3, loaded) ∷ [];
  next_stream_id = 5;
  outgoing_parity = odd;
}

two-Distinct : Distinct two.streams
unfolding lookup
two-Distinct = (refl, (refl, tt))

get_closed_total_example :
    (st' : SessionState DefaultStream) × (ss : List DefaultStream) × (get_closed two
      ≡ value (st', ss))
    × (length ss ≡ length (closed_ids two.streams))
    × ((j : ℕ)
        → lookup j st'.streams
          ≡ (if closed_at (lookup j two.streams) then none else lookup j two.streams))
get_closed_total_example = get_closed_total two two-Distinct

get_next_chunk_total_example :
    (m : List (ℕ × DefaultStream)) × (r : HttpResult (Option DataChunk)) × (get_next_chunk
        two.streams
        (0 ∷ 0 ∷ [])
      ≡ value (m, r))
    × (ids m ≡ 1 ∷ 3 ∷ [])
get_next_chunk_total_example = get_next_chunk_total default_stream-IsLawful two.streams (0 ∷ 0 ∷ [])

get_data_chunk-Chunked_example :
    let r = default_get_data_chunk (0 ∷ 0 ∷ []) loaded in
    (n : ℕ) × (n ≤ 2)
    × (length r.1 ≡ 2)
    × (take n r.1 ++ left_over r.0.outgoing ≡ 1 ∷ 2 ∷ 3 ∷ [])
    × Chunked n loaded r.0 (0 ∷ 0 ∷ []) r.2
get_data_chunk-Chunked_example =
    get_data_chunk-Chunked (record { buffer = 1 ∷ 2 ∷ 3 ∷ []; position = 0 }) (0 ∷ 0 ∷ []) loaded
      refl (omega arith) refl

close_both_example :
    (is_closed (close_remote (close_local loaded)) ≡ true)
    × (is_closed (close_local (close_remote loaded)) ≡ true)
    × (is_closed (close_local loaded) ≡ false)
    × (is_closed (close_remote loaded) ≡ false)
close_both_example = close_both default_stream-IsLawful loaded refl refl

already : is_closed finished ≡ true
unfolding is_closed
already = refl

close_reopens_example :
    (is_closed_remote (close_local finished) ≡ false)
    × (is_closed_local (close_remote finished) ≡ false)
close_reopens_example = close_reopens default_stream-IsLawful finished already
