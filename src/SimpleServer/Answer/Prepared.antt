-- ===== src/SimpleServer/Answer/Prepared.antt =====
-- server/mod.rs and client/simple.rs: what `prepare_responses` does, and what the client makes of it.
use solicit.Base.{
  ℕ, ◌≡◌, refl, sym, ap, ◌∙◌, Bool, true, false, List, [], ◌∷◌, ◌++◌, append_assoc, append-nil,
  Option, none, some, ◌==◌, if◌then◌else◌,
}
use mathlib.Core.Path.{subst}
use solicit.Http.Run.{ok}
use solicit.Http.Response.{Header, Response}
use solicit.Session.Stream.{
  DefaultStream, default_stream, default_set_headers, set_full_data, is_closed,
}
use solicit.Session.State.{get_stream_ref, change_stream}
use solicit.Session.State.Maps.{lookup-update, map_option}
use solicit.Connection.Defs.{Hpack}
use solicit.Connection.Handle.Block.{IsCodec}
use solicit.Transport.{TransportStream}
use solicit.Transport.ReadExact.{IsStream}
use solicit.SimpleClient.{SimpleClient}
use solicit.SimpleClient.Arrives.{Closes, one_before}
use solicit.SimpleServer.{SimpleServer, prepare_responses}
use solicit.SimpleServer.Delivery.{Wrote, Wrote-append}
use solicit.SimpleServer.Delivery.Turns.{Sendable}
use solicit.SimpleServer.Answer.Steps.{
  update-Sendable, headers_copied, Sends, next_encoder, headers_octets, prepare_responses-first,
  handle_next_frame-headers_octets,
}

-- The last of the responses for the stream, or what was there before.
abbrev pub answer_of : ℕ → List Response → Option Response → Option Response
answer_of j [] o = o
answer_of j (r ∷ rs) o = answer_of j rs (if r.stream_id == j then some r else o)

-- Each response is for the identifier of a stream, with a header block that fits into a frame.
abbrev pub Fitting : (hpack : Hpack) → hpack.Encoder → List Response → Type 0
Fitting hpack encoder [] = Unit {0}
Fitting hpack encoder (r ∷ rs) =
    Sends hpack encoder r × Fitting hpack (next_encoder hpack encoder r) rs

-- The server's stream has the body of the response to send; the client's has its headers.
abbrev pub Staged : Option Response → DefaultStream → Type 0
Staged none y = Unit {0}
Staged (some r) y = y.outgoing ≡ some (record { buffer = r.body; position = 0 })

abbrev pub Informed : Option Response → DefaultStream → Type 0
Informed none x = Unit {0}
Informed (some r) x = x.headers ≡ some r.headers

first-Informed :
    (b : Bool) (r : Response) (o : Option Response) (x : DefaultStream)
    → is_closed x ≡ false
    → Informed o x
    → let x1 = if b then default_set_headers r.headers x else x in
      (is_closed x1 ≡ false) × Informed (if b then some r else o) x1 × (x1.body ≡ x.body)
unfolding default_set_headers is_closed
first-Informed true r o x opened informed = (opened, ap some (headers_copied r.headers), refl)
first-Informed false r o x opened informed = (opened, informed, refl)

first-Staged :
    (b : Bool) (r : Response) (o : Option Response) (y : DefaultStream)
    → Staged o y
    → let y1 = if b then set_full_data r.body y else y in
      Staged (if b then some r else o) y1 × (y1.state ≡ y.state)
unfolding set_full_data
first-Staged true r o y staged = (refl, refl)
first-Staged false r o y staged = (staged, refl)

found_by :
    (b : Bool) (f : DefaultStream → DefaultStream) (o : Option DefaultStream) (y : DefaultStream)
    → o ≡ some y
    → (if b then map_option f o else o) ≡ some (if b then f y else y)
found_by true f o y found = rw found refl
found_by false f o y found = found

module _ {hpack : Hpack} (codec : IsCodec hpack) {T H : Type 0} ⦃ts : TransportStream T⦄
    (stream : IsStream ts) (j : ℕ) where
  -- A client that has the octets to read closes the stream, if it does so with what is then known.
  abbrev pub Tells : List ℕ → SimpleServer hpack T H → Option Response → Option Response → Type 0
  Tells octets s o o' =
      (k : SimpleClient hpack T) (x : DefaultStream) (rest body : List ℕ)
      (hs : Option (List Header))
      → stream.unread k.receiver ≡ octets ++ rest
      → codec.InStep s.conn.conn.encoder k.conn.conn.decoder
      → get_stream_ref k.conn.state j ≡ some x
      → is_closed x ≡ false
      → Informed o x
      → ((k1 : SimpleClient hpack T) (x1 : DefaultStream)
          → stream.unread k1.receiver ≡ rest
          → k1.conn.conn.in_window_size ≡ k.conn.conn.in_window_size
          → get_stream_ref k1.conn.state j ≡ some x1
          → is_closed x1 ≡ false
          → Informed o' x1
          → x1.body ≡ x.body
          → Closes j k1 body hs)
      → Closes j k body hs

  -- What the preparation of responses does, for a stream of the server.
  abbrev pub Prepared :
      Option Response
      → SimpleServer hpack T H
      → SimpleServer hpack T H
      → Option Response
      → DefaultStream
      → Type 0
  Prepared o' s s' o y =
      (octets : List ℕ) × (y' : DefaultStream) × Wrote stream octets s.sender s'.sender
      × (s'.conn.conn.out_window_size ≡ s.conn.conn.out_window_size)
      × Sendable s'.conn.state.streams
      × (get_stream_ref s'.conn.state j ≡ some y')
      × (y'.state ≡ y.state)
      × Staged o' y'
      × Tells octets s o o'

  first-Tells :
      (r : Response) (octets : List ℕ) (s s1 : SimpleServer hpack T H) (o o' : Option Response)
      (fits : Sends hpack s.conn.conn.encoder r)
      → s1.conn.conn ≡ record s.conn.conn { encoder = next_encoder hpack s.conn.conn.encoder r }
      → Tells octets s1 (if r.stream_id == j then some r else o) o'
      → Tells (headers_octets hpack s.conn.conn.encoder r fits ++ octets) s o o'
  first-Tells r octets s s1 o o' fits same tells k x rest body hs unread in_step found opened
        informed further =
      let (k1, handled, left, window, still, streams) =
        handle_next_frame-headers_octets stream codec s.conn.conn.encoder r fits k (octets ++ rest)
          (unread ∙ append_assoc (headers_octets hpack s.conn.conn.encoder r fits) octets rest)
          in_step in
      let x1 = if r.stream_id == j then default_set_headers r.headers x else x in
      let (opened1, informed1, body1) = first-Informed (r.stream_id == j) r o x opened informed in
      one_before j k k1 x body hs found opened handled (
        tells k1 x1 rest body hs left (rw same still) (streams j x found) opened1 informed1
          (λ k2 x2 left2 window2 found2 opened2 informed2 body2.
            further k2 x2 left2 (window2 ∙ window) found2 opened2 informed2 (body2 ∙ body1)))

  pub prepare_responses-Prepared :
      (rs : List Response) (s s' : SimpleServer hpack T H) (o : Option Response) (y : DefaultStream)
      → prepare_responses rs s ≡ ok tt s'
      → Fitting hpack s.conn.conn.encoder rs
      → Sendable s.conn.state.streams
      → get_stream_ref s.conn.state j ≡ some y
      → Staged o y
      → Prepared (answer_of j rs o) s s' o y
  unfolding prepare_responses change_stream get_stream_ref
  prepare_responses-Prepared [] s s' o y done fits good found staged =
      let same : s ≡ s' = cc in
      subst (λ (z : SimpleServer hpack T H). Prepared o s z o y) same
        (
          [],
          y,
          sym (append-nil (stream.written s.sender)),
          refl,
          good,
          found,
          refl,
          staged,
          λ k x rest body hs unread in_step at opened informed further.
              further k x unread refl at opened informed refl,
        )
  prepare_responses-Prepared (r ∷ rs) s s' o y done (fits, others) good found staged =
      let (s1, rest, state, conn, grown) = prepare_responses-first stream r rs s s' fits done in
      let b = r.stream_id == j in
      let y1 = if b then set_full_data r.body y else y in
      let o1 = if b then some r else o in
      let (staged1, same_state) = first-Staged b r o y staged in
      let found1 : get_stream_ref s1.conn.state j ≡ some y1 =
        rw (state, lookup-update r.stream_id j (set_full_data r.body) s.conn.state.streams)
          (found_by b (set_full_data r.body) _ y found) in
      let good1 : Sendable s1.conn.state.streams =
        rw state (update-Sendable r.stream_id r.body s.conn.state.streams good) in
      let others1 : Fitting hpack s1.conn.conn.encoder rs = rw conn others in
      let (octets, y', grown', window, good', found', same_state', staged', tells) =
        prepare_responses-Prepared rs s1 s' o1 y1 rest others1 good1 found1 staged1 in
      let first = headers_octets hpack s.conn.conn.encoder r fits in
      (
        first ++ octets,
        y',
        Wrote-append stream first octets s.sender s1.sender s'.sender grown grown',
        window ∙ rw conn refl,
        good',
        found',
        same_state' ∙ same_state,
        staged',
        first-Tells r octets s s1 o (answer_of j rs o1) fits conn tells,
      )
