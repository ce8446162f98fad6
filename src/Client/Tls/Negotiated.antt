-- ===== src/Client/Tls/Negotiated.antt =====
-- http/client/tls.rs: a connection is used only where an HTTP/2 protocol was negotiated.
use solicit.Base.{
  ℕ, ◌≡◌, refl, ap, true, ◌||◌, List, [], ◌∷◌, ◌++◌, Option, none, some, Exec, value, ◌⊎◌, inl, inr,
  Bool-cases,
}
use solicit.Http.Error.{HttpError}
use solicit.Http.Response.{HttpScheme, bytes_eq}
use solicit.Http.Response.Octets.{bytes_eq_sound, bytes_eq_refl}
use solicit.Transport.{TransportStream}
use solicit.Http.Run.{err}
use solicit.Client.Connector.{ClientStream, ConnectResult, connected, refused}
use solicit.Client.Connector.Preface.{opening_octets, IsSink, write_preface-Prefaced}
use solicit.Client.Tls.{
  alpn_protocols, Openssl, TlsConnector, TlsConnectError, io_failure, http2_not_supported, is_http2,
  any, over_tls, handshake, tls,
}

-- One of the values.
abbrev pub OneOf : List ℕ → List (List ℕ) → Type 0
OneOf x [] = ⊥
OneOf x (y ∷ ys) = (y ≡ x) ⊎ OneOf x ys

any_sound : (x : List ℕ) (ys : List (List ℕ)) → any (λ y. bytes_eq y x) ys ≡ true → OneOf x ys
any_sound x [] h = absurd cc
any_sound x (y ∷ ys) h = elim (Bool-cases (bytes_eq y x)) [
  | inl e ↦ inl (bytes_eq_sound y x e)
  | inr e ↦ inr (any_sound x ys (rw⁻¹ (ap (λ b. b || any (λ z. bytes_eq z x) ys) e) h))
]

any_complete : (x : List ℕ) (ys : List (List ℕ)) → OneOf x ys → any (λ y. bytes_eq y x) ys ≡ true
any_complete x [] h = absurd h
any_complete x (y ∷ ys) (inl e) = rw (e, bytes_eq_refl x) refl
any_complete x (y ∷ ys) (inr h) =
    rw (any_complete x ys h)
      (elim (Bool-cases (bytes_eq y x)) [ inl e ↦ rw e refl | inr e ↦ rw e refl ])

-- What `connect` may result in.
abbrev pub Attempt : Openssl → Type 0
Attempt o = Exec (ConnectResult (TlsConnectError o) (ClientStream o.SslStream))

module _ {o : Openssl} ⦃ts : TransportStream o.SslStream⦄ (sink : IsSink ts) where
  -- The protocol is one of HTTP/2, and the octets that open a connection were written, or the error
  -- of a write is given.
  abbrev pub Opened : List ℕ → o.SslStream → Attempt o → Type 0
  Opened host s r =
      (proto : List ℕ) × (o.get_selected_npn_protocol s ≡ some proto)
      × OneOf proto alpn_protocols
      × (((s' : o.SslStream) × (r
              ≡ value (connected (record { stream = s'; scheme = HttpScheme.https; host = host })))
            × (sink.accepted s' ≡ sink.accepted s ++ opening_octets))
          ⊎ ((e : HttpError) × (s1 s2 : o.SslStream) × (bytes : List ℕ) × (ts.write_all bytes s1
                ≡ err e s2)
              × (r ≡ value (refused (io_failure e)))))

  -- There is no protocol of HTTP/2, and the stream is given back as it was.
  abbrev pub NotSupported : o.SslStream → Attempt o → Type 0
  NotSupported s r =
      ((proto : List ℕ) → o.get_selected_npn_protocol s ≡ some proto → ¬ OneOf proto alpn_protocols)
      × (r ≡ value (refused (http2_not_supported s)))

  by_protocol :
      (host : List ℕ) (s : o.SslStream) (selected : Option (List ℕ))
      → o.get_selected_npn_protocol s ≡ selected
      → Opened host s (over_tls host (connected s)) ⊎ NotSupported s (over_tls host (connected s))
  unfolding over_tls is_http2
  by_protocol host s none same = inr ((λ proto e one. absurd cc), rw same refl)
  by_protocol host s (some proto) same =
      elim (Bool-cases (any (λ p. bytes_eq p proto) alpn_protocols)) [
        | inl found ↦
            let one = any_sound proto alpn_protocols found in
            elim (write_preface-Prefaced sink s) [
              | inl (s', done, grown) ↦
                  inl (proto, same, one, inl (s', rw (same, found, done) refl, grown))
              | inr (e, s1, s2, bytes, failed, done) ↦
                  inl
                    (proto, same, one, inr (e, s1, s2, bytes, failed, rw (same, found, done) refl))
            ]
        | inr missing ↦ inr (
          (λ p e one.
              let same_proto : proto ≡ p = cc in
              let there : any (λ q. bytes_eq q p) alpn_protocols ≡ true =
                any_complete p alpn_protocols one in
              absurd (cc (there, missing, same_proto))),
          rw (same, missing) refl,
        )
      ]

  -- If the TLS handshake of a connector gives a stream, and streams take all octets of each write that
  -- succeeds, and no write panics, then: where the protocol that was selected is one of the four of
  -- HTTP/2, `connect` gives this stream for the scheme "https", after writing the octets that open a
  -- connection to it, or, if a write fails, its error; otherwise the connection is refused as not supported,
  -- and the stream given back as it was.
  pub connect-handshake :
      (tcp_connect : List ℕ → ℕ → ConnectResult HttpError o.Tcp) (c : TlsConnector o)
      (s : o.SslStream)
      → handshake c (tcp_connect c.host 443) ≡ connected s
      → Opened c.host s ((tls tcp_connect).connect c) ⊎ NotSupported s ((tls tcp_connect).connect c)
  connect-handshake tcp_connect c s shaken =
      rw shaken (by_protocol c.host s (o.get_selected_npn_protocol s) refl)
