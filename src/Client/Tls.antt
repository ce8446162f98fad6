-- ===== src/Client/Tls.antt =====
-- http/client/tls.rs: the connector over TLS, for the operations of the openssl crate.
pub mod Negotiated
use solicit.Base.{
  ℕ, bit_or, Bool, true, false, not, ◌||◌, List, [], ◌∷◌, Option, none, some, Exec, value, panic,
  if◌then◌else◌,
}
use solicit.Http.Error.{HttpError}
use solicit.Http.Run.{Run, ok, err, fault}
use solicit.Http.Response.{HttpScheme, bytes_eq}
use solicit.Transport.{TransportStream}
use solicit.Client.{write_preface}
use solicit.Client.Connector.{ClientStream, ConnectResult, connected, refused, HttpConnect, opened}

-- "h2", "h2-16", "h2-15" and "h2-14"
abbrev pub alpn_protocols : List (List ℕ)
alpn_protocols =
    (b'h' ∷ b'2' ∷ [])
    ∷ (b'h' ∷ b'2' ∷ b'-' ∷ b'1' ∷ b'6' ∷ [])
    ∷ (b'h' ∷ b'2' ∷ b'-' ∷ b'1' ∷ b'5' ∷ [])
    ∷ (b'h' ∷ b'2' ∷ b'-' ∷ b'1' ∷ b'4' ∷ [])
    ∷ []

-- The crate: `SslMethod`, `SslContext`, `Ssl` and `SslStream` over a TCP stream, and paths.
pub record Openssl : Type 1 where
  pub Method : Type 0
  pub Context : Type 0
  pub Ssl : Type 0
  pub SslError : Type 0
  pub CaPath : Type 0
  pub Tcp : Type 0
  pub SslStream : Type 0
  pub tlsv1_2 : Method
  pub verify_peer : ℕ
  pub fail_if_no_peer_cert : ℕ
  pub no_compression : ℕ
  pub new_context : Method → ConnectResult SslError Context
  pub set_verify : ℕ → Context → Context
  pub set_ca_file : CaPath → Context → ConnectResult SslError Context
  pub set_options : ℕ → Context → Context
  pub set_npn_protocols : List (List ℕ) → Context → Context
  pub new_ssl : Context → ConnectResult SslError Ssl
  pub set_hostname : List ℕ → Ssl → ConnectResult SslError Ssl
  pub new_from : Ssl → Tcp → ConnectResult SslError SslStream
  pub get_selected_npn_protocol : SslStream → Option (List ℕ)

module _ (o : Openssl) where
  pub data Http2TlsContext : Type 0 where
    wrapped : o.Context → Http2TlsContext
    cert_path : o.CaPath → Http2TlsContext

  pub record TlsConnector : Type 0 where
    pub host : List ℕ
    pub context : Http2TlsContext

  pub data TlsConnectError : Type 0 where
    io_failure : HttpError → TlsConnectError
    ssl_failure : o.SslError → TlsConnectError
    http2_not_supported : o.SslStream → TlsConnectError

-- `try!`, with the conversion of the error.
abbrev pub try_from :
    {E E' A B : Type 0}
    → (E → E')
    → ConnectResult E A
    → (A → ConnectResult E' B)
    → ConnectResult E' B
try_from from (connected a) next = next a
try_from from (refused e) next = refused (from e)

abbrev any : (List ℕ → Bool) → List (List ℕ) → Bool
any p [] = false
any p (x ∷ xs) = p x || any p xs

-- Whether the protocol is one of HTTP/2; no protocol is none.
unfoldable pub is_http2 : Option (List ℕ) → Bool
unfolding bytes_eq
is_http2 none = false
is_http2 (some proto) = any (λ http2_proto. bytes_eq http2_proto proto) alpn_protocols

module _ {o : Openssl} where
  unfoldable pub new : List ℕ → o.CaPath → TlsConnector o
  new host ca_file_path = record { host = host; context = cert_path ca_file_path }

  unfoldable pub with_context : List ℕ → o.Context → TlsConnector o
  with_context host context = record { host = host; context = wrapped context }

  unfoldable pub build_default_context : o.CaPath → ConnectResult (TlsConnectError o) o.Context
  build_default_context ca_file_path = try_from ssl_failure (o.new_context o.tlsv1_2) λ context.
      let verified = o.set_verify (bit_or o.verify_peer o.fail_if_no_peer_cert) context in
      try_from ssl_failure (o.set_ca_file ca_file_path verified) λ trusting.
        connected (o.set_npn_protocols alpn_protocols (o.set_options o.no_compression trusting))

  -- The SSL instance for the context of the connector.
  unfoldable pub new_ssl : Http2TlsContext o → ConnectResult (TlsConnectError o) o.Ssl
  unfolding build_default_context
  new_ssl (cert_path path) =
      try_from (λ e. e) (build_default_context path)
        λ ctx. try_from ssl_failure (o.new_ssl ctx) connected
  new_ssl (wrapped ctx) = try_from ssl_failure (o.new_ssl ctx) connected

  -- `connect`, up to the stream over TLS.
  unfoldable pub handshake :
      TlsConnector o → ConnectResult HttpError o.Tcp → ConnectResult (TlsConnectError o) o.SslStream
  unfolding new_ssl
  handshake c tcp = try_from io_failure tcp λ raw_tcp.
      try_from (λ e. e) (new_ssl c.context)
        λ ssl.
          try_from ssl_failure (o.set_hostname c.host ssl)
            λ named. try_from ssl_failure (o.new_from named raw_tcp) connected

  module _ ⦃ts : TransportStream o.SslStream⦄ where
    -- The rest of `connect`: the protocol that was selected, and the preface.
    unfoldable pub over_tls :
        List ℕ
        → ConnectResult (TlsConnectError o) o.SslStream
        → Exec (ConnectResult (TlsConnectError o) (ClientStream o.SslStream))
    unfolding is_http2 write_preface
    over_tls host (refused e) = value (refused e)
    over_tls host (connected ssl_stream) =
        let fail = not (is_http2 (o.get_selected_npn_protocol ssl_stream)) in
        if fail
        then value (refused (http2_not_supported ssl_stream))
        else opened io_failure HttpScheme.https host (write_preface ts.write_all ssl_stream)

    -- `TcpStream::connect` is given, for a host and a port.
    abbrev pub tls :
        (List ℕ → ℕ → ConnectResult HttpError o.Tcp)
        → HttpConnect (TlsConnector o) o.SslStream (TlsConnectError o)
    tls tcp_connect = record {
      connect = λ c. over_tls c.host (handshake c (tcp_connect c.host 443));
    }
