-- ===== src/Async/Service/Invariant/Closing.antt =====
-- client/async.rs: the responses for the streams that were closed.
use solicit.Base.{
  OnValue, bind-OnValue, OnValue-any, OnValue-weaken, ℕ, ◌+◌, ◌^◌, ◌≤◌, ◌<◌, ◌≡◌, refl, arith, List,
  [], ◌∷◌, ◌++◌, some, length, map, Option-cases, inl, inr,
}
use solicit.Http.Response.{Response}
use solicit.Session.Stream.{DefaultStream, default_stream}
use solicit.Session.State.{
  SessionState, lookup, remove, remove_all, remove_stream, closed_ids, get_closed,
}
use solicit.Session.State.Maps.{Distinct, AllKeys, remove-Distinct}
use solicit.Session.State.Labels.{labels}
use solicit.Connection.Defs.{Hpack}
use solicit.Client.{ClientConnection}
use solicit.Async.Service.{ClientService}
use solicit.Async.Service.Requests.{one_less, send_responses, handle_closed}
use solicit.Async.Service.Chans.{
  own, remove-own, lookup-own, length-remove, remove-AllKeys, count, count-remove,
}
use solicit.Async.Service.Invariant.{Inv, accounted, Kept}

count-answered :
    (x tx : ℕ) (answered : List (ℕ × Response)) (response : Response)
    → count x (map (λ e. e.0) (answered ++ (tx, response) ∷ []))
      ≡ count x (map (λ e. e.0) answered) + count x (tx ∷ [])
count-answered x tx [] response = omega arith
count-answered x tx ((y, r) ∷ answered) response =
    ground (arith, count-answered x tx answered response)

module _ {hpack : Hpack} (x total limit next : ℕ) where
  -- The service while the responses go out, for the session state that they leave.
  record Closing (st : SessionState DefaultStream) (s : ClientService hpack) : Type 0 where
    pub labelled : labels st.streams ≡ own s.chans
    pub distinct : Distinct s.chans
    pub below : AllKeys (λ k. k < next) s.chans
    pub counted : s.outstanding_reqs ≡ length s.chans
    pub bounded : s.outstanding_reqs ≤ limit
    pub small : limit < 2 ^ 32
    pub same_limit : s.limit ≡ limit
    pub same_next : st.next_stream_id ≡ next
    pub tally : accounted x s ≡ total

  -- Closing, with this connection.
  abbrev Ends :
      ClientConnection hpack DefaultStream
      → SessionState DefaultStream
      → ClientService hpack
      → Type 0
  Ends c st s = Closing st s × (s.conn ≡ c)

  -- All responses for the streams found.
  abbrev Answered : ClientService hpack → SessionState DefaultStream × List DefaultStream → Type 0
  Answered s (st, closed) =
      (c : ClientConnection hpack DefaultStream)
      → OnValue (Ends c st) (send_responses closed (record s { conn = c }))

  answered-Closing :
      (i tx : ℕ) (stream : DefaultStream) (response : Response) (st : SessionState DefaultStream)
      (s : ClientService hpack)
      → Closing st s
      → lookup i st.streams ≡ some stream
      → lookup i s.chans ≡ some tx
      → Closing
          (record st { streams = remove i st.streams })
          (one_less
            (record s { chans = remove i s.chans; answered = s.answered ++ (tx, response) ∷ [] }))
  answered-Closing i tx stream response st s v found waiting =
      let fewer = length-remove i tx s.chans v.distinct waiting in
      let moved = count-remove x i tx s.chans v.distinct waiting in
      record {
        labelled = remove-own i st.streams s.chans v.labelled;
        distinct = remove-Distinct i s.chans v.distinct;
        below = remove-AllKeys (λ k. k < next) i s.chans v.below;
        counted = omega (arith, v.counted, v.bounded, v.small);
        bounded = omega (arith, v.counted, v.bounded, v.small);
        small = v.small;
        same_limit = v.same_limit;
        same_next = v.same_next;
        tally = ground (arith, moved, count-answered x tx s.answered response, v.tally);
      }

  remove_all-Answered :
      (ids : List ℕ) (st : SessionState DefaultStream) (s : ClientService hpack)
      → Closing st s
      → OnValue (Answered s) (remove_all ids st)
  unfolding remove_all remove_stream send_responses
  remove_all-Answered [] st s v = λ c. (
    record {
      labelled = v.labelled;
      distinct = v.distinct;
      below = v.below;
      counted = v.counted;
      bounded = v.bounded;
      small = v.small;
      same_limit = v.same_limit;
      same_next = v.same_next;
      tally = v.tally;
    },
    refl,
  )
  remove_all-Answered (i ∷ ids) st s v = elim (Option-cases (lookup i st.streams)) [
    | inl e ↦ rw e tt
    | inr (stream, e) ↦
        let (noted, (tx, waiting)) = lookup-own i stream st.streams s.chans v.labelled e in
        rw e (elim (Option-cases stream.headers) [
          | inl no_headers ↦
              bind-OnValue (λ p. Unit {0}) (Answered s)
                (remove_all ids (record st { streams = remove i st.streams })) _
                (OnValue-any (remove_all ids (record st { streams = remove i st.streams })))
                (λ p h c. rw (noted, waiting, no_headers) tt)
          | inr (hs, has_headers) ↦
              let response : Response = record {
                stream_id = i;
                headers = hs;
                body = stream.body;
              } in
              let s' : ClientService hpack = one_less (record s {
                chans = remove i s.chans;
                answered = s.answered ++ (tx, response) ∷ [];
              }) in
              bind-OnValue (Answered s') (Answered s)
                (remove_all ids (record st { streams = remove i st.streams })) _
                (remove_all-Answered ids (record st { streams = remove i st.streams }) s'
                  (answered-Closing i tx stream response st s v e waiting))
                (λ p h c. rw (noted, waiting, has_headers) (h c))
        ])
  ]

module _ {hpack : Hpack} where
  -- If the invariant holds, the responses for the closed streams keep it where no closed stream is
  -- without headers, which is a panic.
  pub handle_closed-Kept :
      (x : ℕ) (s : ClientService hpack)
      → Inv s
      → OnValue (Kept x (accounted x s) s.conn.state.next_stream_id) (handle_closed s)
  unfolding handle_closed get_closed
  handle_closed-Kept x s v =
      bind-OnValue (Answered x (accounted x s) s.limit s.conn.state.next_stream_id s) _
        (remove_all (closed_ids s.conn.state.streams) s.conn.state) _
        (remove_all-Answered x (accounted x s) s.limit s.conn.state.next_stream_id
          (closed_ids s.conn.state.streams) s.conn.state s
          (record {
            labelled = v.labelled;
            distinct = v.distinct;
            below = v.below;
            counted = v.counted;
            bounded = v.bounded;
            small = v.small;
            same_limit = refl;
            same_next = refl;
            tally = refl;
          }))
        (λ a h.
          OnValue-weaken
            (Ends x (accounted x s) s.limit s.conn.state.next_stream_id (closed_conn a.0) a.0) _
            (send_responses a.1 (record s { conn = closed_conn a.0 }))
            (λ s' (v', same). (
              record {
                labelled = rw same v'.labelled;
                distinct = v'.distinct;
                below = rw (same, v'.same_next) v'.below;
                counted = v'.counted;
                bounded = rw v'.same_limit v'.bounded;
                small = rw v'.same_limit v'.small;
              },
              v'.tally,
              rw (same, v'.same_next) (omega arith),
            ))
            (h (closed_conn a.0)))
    where
      closed_conn : SessionState DefaultStream → ClientConnection hpack DefaultStream
      closed_conn st = record s.conn { state = st }
