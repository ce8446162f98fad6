-- ===== src/Async/Service/Totality.antt =====
-- client/async.rs: the responses for the streams that were closed all go out.
use solicit.Base.{
  ℕ, ◌≡◌, ◌≢◌, refl, ap, arith, true, false, inl, inr, List, [], ◌∷◌, ◌++◌, Option, none, some,
  ◌==◌, value, OnValue, Bool-cases, Option-cases,
}
use mathlib.Core.Path.{subst}
use solicit.Http.Response.{Header, Response}
use solicit.Session.Stream.{DefaultStream, default_stream, is_closed}
use solicit.Session.State.{
  SessionState, lookup, remove, remove_all, remove_stream, closed_ids, get_closed,
}
use solicit.Session.State.Maps.{lookup-remove, Distinct}
use solicit.Session.State.Labels.{labels}
use solicit.Session.State.Closed.{
  contains, NoRepeats, closed_at, contains-closed_ids, closed_ids-NoRepeats,
}
use solicit.Connection.Defs.{Hpack}
use solicit.Async.Service.{ClientService}
use solicit.Async.Service.Requests.{send_responses, handle_closed, one_less}
use solicit.Async.Service.Chans.{own, lookup-own}
use solicit.Async.Service.Invariant.{Inv, Kept, accounted}
use solicit.Async.Service.Invariant.Closing.{handle_closed-Kept}

-- A stream with this identifier that knows it and has headers, and a channel that waits for it.
abbrev Answerable : ℕ → List (ℕ × DefaultStream) → List (ℕ × ℕ) → Type 0
Answerable i m chans =
    (stream : DefaultStream) × (hs : List Header) × (tx : ℕ) × (lookup i m ≡ some stream)
    × (stream.stream_id ≡ some i)
    × (stream.headers ≡ some hs)
    × (lookup i chans ≡ some tx)

-- Another one is answered.
other-Answerable :
    (i k : ℕ) (m : List (ℕ × DefaultStream)) (chans : List (ℕ × ℕ))
    → (i == k) ≡ false
    → Answerable k m chans
    → Answerable k (remove i m) (remove i chans)
other-Answerable i k m chans apart (stream, hs, tx, found, noted, has, waiting) = (
  stream,
  hs,
  tx,
  rw (lookup-remove i k m, apart) found,
  noted,
  has,
  rw (lookup-remove i k chans, apart) waiting,
)

-- The keys of the streams are those of the channels.
absent-own :
    (k : ℕ) (m : List (ℕ × DefaultStream)) (chans : List (ℕ × ℕ))
    → labels m ≡ own chans
    → lookup k chans ≡ none
    → lookup k m ≡ none
unfolding lookup
absent-own k [] chans h absent = refl
absent-own k (e ∷ m) [] h absent = absurd cc
absent-own k ((i, s) ∷ m) ((j, tx) ∷ chans) h absent =
    let key : i ≡ j = cc in
    let rest : labels m ≡ own chans = cc in
    elim (Bool-cases (j == k)) [
      | inl e ↦ absurd (ground arith)
      | inr e ↦ rw (key, e) (absent-own k m chans rest (ground arith))
    ]

labels-Distinct :
    (m : List (ℕ × DefaultStream)) (chans : List (ℕ × ℕ))
    → labels m ≡ own chans
    → Distinct chans
    → Distinct m
labels-Distinct [] chans h d = tt
labels-Distinct (e ∷ m) [] h d = absurd cc
labels-Distinct ((i, s) ∷ m) ((j, tx) ∷ chans) h d =
    let key : i ≡ j = cc in
    let rest : labels m ≡ own chans = cc in
    (rw key (absent-own j m chans rest d.0), labels-Distinct m chans rest d.1)

-- The responses go out, from every service with these channels.
abbrev GoOut : Hpack → List (ℕ × ℕ) → List DefaultStream → Type 0
GoOut hpack chans streams =
    (s : ClientService hpack)
    → s.chans ≡ chans
    → (s' : ClientService hpack) × (send_responses streams s ≡ value s')

module _ {hpack : Hpack} where
  one-GoOut :
      (i tx : ℕ) (stream : DefaultStream) (hs : List Header) (chans : List (ℕ × ℕ))
      (streams : List DefaultStream)
      → stream.stream_id ≡ some i
      → stream.headers ≡ some hs
      → lookup i chans ≡ some tx
      → GoOut hpack (remove i chans) streams
      → GoOut hpack chans (stream ∷ streams)
  unfolding send_responses
  one-GoOut i tx stream hs chans streams noted has waiting rest s same =
      let response : Response = record { stream_id = i; headers = hs; body = stream.body } in
      let here : lookup i s.chans ≡ some tx = rw same waiting in
      let (s', e) =
        rest
          (one_less
            (record s { chans = remove i s.chans; answered = s.answered ++ (tx, response) ∷ [] }))
          (ap (remove i) same) in
      (s', rw (noted, here, has) e)

  remove_all-GoOut :
      (ids : List ℕ) (st : SessionState DefaultStream) (chans : List (ℕ × ℕ))
      → NoRepeats ids
      → ((i : ℕ) → contains i ids ≡ true → Answerable i st.streams chans)
      → (st' : SessionState DefaultStream) × (ss : List DefaultStream) × (remove_all ids st
          ≡ value (st', ss))
        × GoOut hpack chans ss
  unfolding remove_all remove_stream send_responses
  remove_all-GoOut [] st chans n f = (st, [], refl, λ s same. (s, refl))
  remove_all-GoOut (i ∷ ids) st chans n f =
      let (stream, hs, tx, found, noted, has, waiting) = f i (ground arith) in
      let (st', ss, p, out) =
        remove_all-GoOut ids (record st { streams = remove i st.streams }) (remove i chans) n.1
          (λ k c. elim (Bool-cases (i == k)) [
            | inl e ↦ absurd (ground (arith, n.0))
            | inr e ↦ other-Answerable i k st.streams chans e (f k (ground arith))
          ]) in
      (
        st',
        stream ∷ ss,
        rw (found, p) refl,
        one-GoOut i tx stream hs chans ss noted has waiting out,
      )

  closed-Answerable :
      (s : ClientService hpack) (i : ℕ) (o : Option DefaultStream)
      → Inv s
      → lookup i s.conn.state.streams ≡ o
      → closed_at o ≡ true
      → ((stream : DefaultStream) → o ≡ some stream → stream.headers ≢ none)
      → Answerable i s.conn.state.streams s.chans
  closed-Answerable s i none v found shut h = absurd cc
  closed-Answerable s i (some stream) v found shut h =
      let (noted, (tx, waiting)) =
        lookup-own i stream s.conn.state.streams s.chans v.labelled found in
      elim (Option-cases stream.headers) [
        | inl e ↦ absurd (h stream refl e)
        | inr (hs, e) ↦ (stream, hs, tx, found, noted, e, waiting)
      ]

  -- If the invariant of the service holds and every closed stream has headers, `handle_closed` does
  -- not panic; it keeps the invariant, and for every channel for a response how often it stands among
  -- those answered, those that wait for an answer, and those of queued requests.
  pub handle_closed_total :
      (x : ℕ) (s : ClientService hpack)
      → Inv s
      → ((i : ℕ) (stream : DefaultStream)
          → lookup i s.conn.state.streams ≡ some stream
          → is_closed stream ≡ true
          → stream.headers ≢ none)
      → (s' : ClientService hpack) × (handle_closed s ≡ value s')
        × Kept x (accounted x s) s.conn.state.next_stream_id s'
  unfolding handle_closed get_closed
  handle_closed_total x s v h =
      let m : List (ℕ × DefaultStream) = s.conn.state.streams in
      let d : Distinct m = labels-Distinct m s.chans v.labelled v.distinct in
      let (st', ss, p, out) =
        remove_all-GoOut (closed_ids m) s.conn.state s.chans (closed_ids-NoRepeats m d) (λ i c.
          closed-Answerable s i (lookup i m) v refl (cc (c, contains-closed_ids i m d))
            (λ stream e. h i stream e (cc (c, contains-closed_ids i m d, ap closed_at e)))) in
      let (s', e) = out (record s { conn = record s.conn { state = st' } }) refl in
      let done : handle_closed s ≡ value s' = rw p e in
      (
        s',
        done,
        subst (OnValue (Kept x (accounted x s) s.conn.state.next_stream_id)) done
            (handle_closed-Kept x s v),
      )
