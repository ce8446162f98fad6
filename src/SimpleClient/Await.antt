-- ===== src/SimpleClient/Await.antt =====
-- client/simple.rs: `get_response` gives the response once its stream is closed.
use solicit.Base.{
  ℕ, zero, suc, ◌≡◌, refl, true, false, Option, none, some, List, inl, inr, Option-cases, ◌≤◌,
  arith,
}
use solicit.Http.Run.{Run, ok, fault}
use solicit.Http.Response.{Header, Response}
use solicit.Session.Stream.{DefaultStream, default_stream, is_closed}
use solicit.Session.State.{get_stream_ref}
use solicit.Connection.Defs.{Hpack}
use solicit.Transport.{TransportStream}
use solicit.SimpleClient.{
  SimpleClient, handle_next_frame, await_response, get_response, response_of,
}

module _ {hpack : Hpack} {T : Type 0} ⦃ts : TransportStream T⦄ (stream_id : ℕ) where
  -- So many frames are handled without an error, before each of which the stream is open.
  pub data Waits : ℕ → SimpleClient hpack T → SimpleClient hpack T → Type 0 where
    over : (c : SimpleClient hpack T) → Waits 0 c c
    another :
        (n : ℕ) (c c' c'' : SimpleClient hpack T) (stream : DefaultStream)
        → get_stream_ref c.conn.state stream_id ≡ some stream
        → is_closed stream ≡ false
        → handle_next_frame c ≡ ok tt c'
        → Waits n c' c''
        → Waits (suc n) c c''

  -- What `get_response` makes of a closed stream: the response, or a panic where it has no headers.
  abbrev pub Responds :
      SimpleClient hpack T
      → DefaultStream
      → Option (List Header)
      → Run (SimpleClient hpack T) Response
      → Type 0
  Responds c stream none r = r ≡ fault
  Responds c stream (some headers) r =
      r ≡ ok (record { stream_id = stream_id; headers = headers; body = stream.body }) c

  closed-Responds :
      (frames : ℕ) (c : SimpleClient hpack T) (stream : DefaultStream)
      → get_stream_ref c.conn.state stream_id ≡ some stream
      → is_closed stream ≡ true
      → Responds c stream stream.headers (await_response frames stream_id c)
  unfolding await_response response_of
  closed-Responds zero c stream found shut = elim (Option-cases stream.headers) [
    | inl e ↦ rw (await_response, found, shut, e) refl
    | inr (hs, e) ↦ rw (await_response, found, shut, e) refl
  ]
  closed-Responds (suc frames) c stream found shut = elim (Option-cases stream.headers) [
    | inl e ↦ rw (await_response, found, shut, e) refl
    | inr (hs, e) ↦ rw (await_response, found, shut, e) refl
  ]

  open-next :
      (frames : ℕ) (c c' : SimpleClient hpack T) (stream : DefaultStream)
      → get_stream_ref c.conn.state stream_id ≡ some stream
      → is_closed stream ≡ false
      → handle_next_frame c ≡ ok tt c'
      → await_response (suc frames) stream_id c ≡ await_response frames stream_id c'
  unfolding await_response
  open-next frames c c' stream found open_ handled = rw (await_response, found, open_, handled) refl

  await-Responds :
      (frames n : ℕ) (c c' : SimpleClient hpack T) (stream : DefaultStream)
      → n ≤ frames
      → Waits n c c'
      → get_stream_ref c'.conn.state stream_id ≡ some stream
      → is_closed stream ≡ true
      → Responds c' stream stream.headers (await_response frames stream_id c)
  await-Responds frames n c c' stream enough (over _) found shut =
      closed-Responds frames c stream found shut
  await-Responds zero n c c' stream enough (another m _ c1 _ s f o h more) found shut =
      absurd (omega arith)
  await-Responds (suc frames) n c c' stream enough (another m _ c1 _ s f o h more) found shut =
      rw (open-next frames c c1 s f o h)
        (await-Responds frames m c1 c' stream (omega arith) more found shut)

  known-Waits :
      (frames n : ℕ) (c c' : SimpleClient hpack T) (stream : DefaultStream)
      → Waits n c c'
      → get_stream_ref c'.conn.state stream_id ≡ some stream
      → get_response frames stream_id c ≡ await_response frames stream_id c
  unfolding get_response
  known-Waits frames n c c' stream (over _) found = rw found refl
  known-Waits frames n c c' stream (another m _ c1 _ s f o h more) found = rw f refl

  -- If as many frames can be handled as the bound of the loop allows, or fewer, each without an error
  -- and with the stream open before it, and the stream is closed then, `get_response` handles exactly
  -- these frames and returns the headers and the body of the stream; if the stream has no headers,
  -- the call panics.
  pub get_response-Responds :
      (frames n : ℕ) (c c' : SimpleClient hpack T) (stream : DefaultStream)
      → n ≤ frames
      → Waits n c c'
      → get_stream_ref c'.conn.state stream_id ≡ some stream
      → is_closed stream ≡ true
      → Responds c' stream stream.headers (get_response frames stream_id c)
  get_response-Responds frames n c c' stream enough waits found shut =
      rw (known-Waits frames n c c' stream waits found)
        (await-Responds frames n c c' stream enough waits found shut)
