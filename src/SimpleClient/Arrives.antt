-- ===== src/SimpleClient/Arrives.antt =====
-- client/simple.rs: the rest of a response, as `get_response` gives it.
use solicit.Base.{
  ℕ, ◌+◌, suc, arith, ◌≡◌, refl, ◌∙◌, true, false, List, ◌++◌, append_assoc, Option, some,
}
use mathlib.Core.Path.{subst}
use solicit.Http.Run.{ok}
use solicit.Http.Response.{Header}
use solicit.Session.Stream.{DefaultStream, default_stream, is_closed}
use solicit.Session.State.{get_stream_ref}
use solicit.Connection.Defs.{Hpack}
use solicit.Transport.{TransportStream}
use solicit.SimpleClient.{SimpleClient, handle_next_frame, get_response}
use solicit.SimpleClient.Await.{Waits, over, another, Responds, get_response-Responds}

module _ (j : ℕ) {hpack : Hpack} {T : Type 0} ⦃ts : TransportStream T⦄ where
  -- The client handles frames until the stream is closed, with this body and these headers.
  abbrev pub Closes : SimpleClient hpack T → List ℕ → Option (List Header) → Type 0
  Closes k body headers =
      (n : ℕ) × (k' : SimpleClient hpack T) × (x' : DefaultStream) × Waits j n k k'
      × (get_stream_ref k'.conn.state j ≡ some x')
      × (is_closed x' ≡ true)
      × (x'.body ≡ body)
      × (x'.headers ≡ headers)

  -- The stream is closed with the octets at the end of its body.
  abbrev pub Arrives : SimpleClient hpack T → DefaultStream → List ℕ → Type 0
  Arrives k x bytes = Closes k (x.body ++ bytes) x.headers

  pub one_before :
      (k k1 : SimpleClient hpack T) (x : DefaultStream) (body : List ℕ)
      (headers : Option (List Header))
      → get_stream_ref k.conn.state j ≡ some x
      → is_closed x ≡ false
      → handle_next_frame k ≡ ok tt k1
      → Closes k1 body headers
      → Closes k body headers
  one_before k k1 x body headers found opened handled
        (n, k', x', waits, at, shut, same_body, same_headers) =
      (
        suc n,
        k',
        x',
        another n k k1 k' x found opened handled waits,
        at,
        shut,
        same_body,
        same_headers,
      )

  pub later :
      (k k1 : SimpleClient hpack T) (x x1 : DefaultStream) (bytes more : List ℕ)
      → get_stream_ref k.conn.state j ≡ some x
      → is_closed x ≡ false
      → handle_next_frame k ≡ ok tt k1
      → x1.body ≡ x.body ++ bytes
      → x1.headers ≡ x.headers
      → Arrives k1 x1 more
      → Arrives k x (bytes ++ more)
  later k k1 x x1 bytes more found opened handled body headers
        (n, k', x', waits, at, shut, body', headers') =
      (
        suc n,
        k',
        x',
        another n k k1 k' x found opened handled waits,
        at,
        shut,
        body' ∙ rw body (append_assoc x.body bytes more),
        headers' ∙ headers,
      )

  pub last_one :
      (k k1 : SimpleClient hpack T) (x x1 : DefaultStream) (bytes : List ℕ)
      → get_stream_ref k.conn.state j ≡ some x
      → is_closed x ≡ false
      → handle_next_frame k ≡ ok tt k1
      → get_stream_ref k1.conn.state j ≡ some x1
      → is_closed x1 ≡ true
      → x1.body ≡ x.body ++ bytes
      → x1.headers ≡ x.headers
      → Arrives k x bytes
  last_one k k1 x x1 bytes found opened handled at shut body headers =
      (1, k1, x1, another 0 k k1 k1 x found opened handled (over k1), at, shut, body, headers)

  -- With enough frames, `get_response` gives the headers and the body.
  pub get_response-Closes :
      (k : SimpleClient hpack T) (bytes : List ℕ) (hs : List Header)
      → Closes k bytes (some hs)
      → (n : ℕ) × (k' : SimpleClient hpack T) × ((more : ℕ)
          → get_response (n + more) j k
            ≡ ok (record { stream_id = j; headers = hs; body = bytes }) k')
  get_response-Closes k bytes hs (n, k', x', waits, at, shut, body, headers) = (
    n,
    k',
    λ more.
        let responds : Responds j k' x' (some hs) (get_response (n + more) j k) =
          subst (λ o. Responds j k' x' o (get_response (n + more) j k)) headers
            (get_response-Responds j (n + more) n k k' x' (omega arith) waits at shut) in
        responds ∙ rw body refl,
  )
