-- ===== src/SimpleServer/Staging.antt =====
-- server/mod.rs: `prepare_responses` stages a response for each stream whose remote end is closed.
use solicit.Base.{
  ℕ, Bool, ◌≡◌, ◌≢◌, refl, sym, ap, ◌∙◌, arith, inl, inr, ◌⊎◌, true, false, ◌||◌, List, [], ◌∷◌,
  map, Option, none, some, ◌==◌, ==_refl, if◌then◌else◌, Option-cases,
}
use solicit.Http.Error.{HttpError}
use solicit.Http.Run.{ok, err, fault}
use solicit.Http.Response.{Header, Response}
use solicit.Frame.Raw.{has_flag, with_flag}
use solicit.Frame.Headers
use solicit.Frame.Headers.RoundTrip
use solicit.Frame.Wire.{wire}
use solicit.Session.Stream.{DefaultStream, default_stream, remote_closed, set_full_data}
use solicit.Session.State.{SessionState, lookup, get_stream_ref, change_stream}
use solicit.Session.State.Closed.{contains}
use solicit.Session.State.Maps.{map_option, lookup-update, update-Distinct}
use solicit.Priority.{no_end}
use solicit.Connection.Defs.{Hpack, HttpConnection}
use solicit.Connection.Keeps.{Run-cases}
use solicit.Connection.Repeat.{Ends}
use solicit.Connection.Send.{headers_frame, send_headers, on_second}
use solicit.Connection.Send
use solicit.Transport.{TransportStream, transport_send}
use solicit.Transport
use solicit.Server
use solicit.SimpleServer.{SimpleServer, simple_factory, on_conn, stage, prepare_responses}
use solicit.SimpleServer.Received.{HasHeaders, Held, update-Flushing}

-- The streams are as between two frames; one with a closed remote end and nothing to send has its
-- response among those that are still to be staged; and each of these responses has its stream.
abbrev pub Staging : List ℕ → SessionState DefaultStream → Type 0
Staging is st =
    Held st
    × ((j : ℕ) (x : DefaultStream)
        → lookup j st.streams ≡ some x
        → remote_closed x.state ≡ true
        → x.outgoing ≡ none
        → contains j is ≡ true)
    × ((i : ℕ) → contains i is ≡ true → lookup i st.streams ≢ none)

staged_at :
    (b : Bool) (f : DefaultStream → DefaultStream) (o : Option DefaultStream) (x : DefaultStream)
    → (if b then map_option f o else o) ≡ some x
    → ((b ≡ true) × ((s : DefaultStream) × (x ≡ f s))) ⊎ ((b ≡ false) × (o ≡ some x))
staged_at true f none x h = absurd cc
staged_at true f (some s) x h = inl (refl, (s, cc))
staged_at false f o x h = inr (refl, h)

unstaged :
    (b : Bool) (f : DefaultStream → DefaultStream) (o : Option DefaultStream)
    → o ≢ none
    → (if b then map_option f o else o) ≢ none
unstaged true f none h missing = h refl
unstaged true f (some s) h missing = cc
unstaged false f o h missing = h missing

change_stream-Staging :
    (i : ℕ) (is : List ℕ) (bytes : List ℕ) (st : SessionState DefaultStream)
    → Staging (i ∷ is) st
    → Staging is (change_stream st i (set_full_data bytes))
unfolding change_stream set_full_data
change_stream-Staging i is bytes st ((f, d), left, there) = (
  (
    update-Flushing HasHeaders i (set_full_data bytes) st.streams (λ s p. (omega arith, p.1)) f,
    update-Distinct i (set_full_data bytes) st.streams d,
  ),
  (λ j x found shut empty.
      elim (staged_at (i == j) (set_full_data bytes) (lookup j st.streams) x
        (sym (lookup-update i j (set_full_data bytes) st.streams) ∙ found)) [
          | inl (e, (s, same)) ↦
              let staged : x.outgoing ≢ none = rw same (λ missing. absurd cc) in
              absurd (staged empty)
          | inr (e, was) ↦
              let there_j : contains j (i ∷ is) ≡ true = left j x was shut empty in
              rw⁻¹ (ap (λ b. b || contains j is) e) there_j
        ]),
  (λ k c.
      let there_k : contains k (i ∷ is) ≡ true = rw c (ground arith) in
      rw (lookup-update i k (set_full_data bytes) st.streams)
        (unstaged (i == k) (set_full_data bytes) (lookup k st.streams) (there k there_k))),
)

module _ (hpack : Hpack) {T H : Type 0} ⦃ts : TransportStream T⦄
    (writes : (bytes : List ℕ) (t : T) → ts.write_all bytes t ≢ fault) where
  -- Sending the headers of a response does not panic, and changes no stream.
  start_response_returns :
      (hs : List Header) (i : ℕ) (s : SimpleServer hpack T H)
      → ((s' : SimpleServer hpack T H) × (on_conn
              (on_second (Server.start_response hpack hs i no_end))
              s
            ≡ ok tt s')
          × (s'.conn.state ≡ s.conn.state))
        ⊎ ((e : HttpError) × (s' : SimpleServer hpack T H) × (on_conn
                (on_second (Server.start_response hpack hs i no_end))
                s
              ≡ err e s'))
  unfolding on_conn Server.start_response send_headers Send.send_frame Transport.send_frame
      headers_frame has_flag with_flag Headers.set_flag Headers.new
  start_response_returns hs i s =
      let (fragment, encoder) =
        hpack.encode s.conn.conn.encoder (map (λ h. (h.name, h.value)) hs) in
      let frame = headers_frame fragment i no_end in
      let octets = wire (Headers.get_header frame) (RoundTrip.body frame) in
      let written = RoundTrip.serialize_into-wire frame [] tt in
      let conn' : HttpConnection hpack = record s.conn.conn { encoder = encoder } in
      elim (Run-cases (ts.write_all octets s.sender)) [
        | inl (a, t', e) ↦ inl (
          record s { sender = t'; conn = record s.conn { conn = conn' } },
          rw (written, e) refl,
          refl,
        )
        | inr (inl (x, t', e)) ↦ inr (
          x,
          record s { sender = t'; conn = record s.conn { conn = conn' } },
          rw (written, e) refl,
        )
        | inr (inr e) ↦ absurd (writes octets s.sender e)
      ]

  stage_returns :
      (i : ℕ) (bytes : List ℕ) (s : SimpleServer hpack T H)
      → lookup i s.conn.state.streams ≢ none
      → stage i bytes s
        ≡ ok tt (record s {
          conn = record s.conn { state = change_stream s.conn.state i (set_full_data bytes) };
        })
  unfolding stage get_stream_ref
  stage_returns i bytes s there = elim (Option-cases (lookup i s.conn.state.streams)) [
    | inl e ↦ absurd (there e)
    | inr (x, e) ↦ rw e refl
  ]

  -- All responses are sent and staged, or sending one is an error.
  pub prepare_responses-Ends :
      (rs : List Response) (s : SimpleServer hpack T H)
      → Staging (map (λ r. r.stream_id) rs) s.conn.state
      → Ends (λ s'. Staging [] s'.conn.state) (prepare_responses rs s)
  unfolding prepare_responses
  prepare_responses-Ends [] s h = inl (s, refl, h)
  prepare_responses-Ends (r ∷ rs) s h = elim (start_response_returns r.headers r.stream_id s) [
    | inr (x, s', e) ↦ inr (x, s', rw e refl)
    | inl (s1, e, same) ↦
        let h1 : Staging (r.stream_id ∷ map (λ q. q.stream_id) rs) s1.conn.state = rw same h in
        let s2 : SimpleServer hpack T H = record s1 {
          conn = record s1.conn {
            state = change_stream s1.conn.state r.stream_id (set_full_data r.body);
          };
        } in
        let staged : stage r.stream_id r.body s1 ≡ ok tt s2 =
          stage_returns r.stream_id r.body s1 (h1.2 r.stream_id (rw (==_refl r.stream_id) refl)) in
        elim (prepare_responses-Ends rs s2
          (change_stream-Staging r.stream_id _ r.body s1.conn.state h1)) [
            | inl (s', done, rest) ↦ inl (s', rw (e, staged, done) refl, rest)
            | inr (x, s', failed) ↦ inr (x, s', rw (e, staged, failed) refl)
          ]
  ]
