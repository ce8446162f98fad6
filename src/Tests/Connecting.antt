-- ===== src/Tests/Connecting.antt =====
-- http/client/mod.rs, http/client/tls.rs and server/mod.rs: connections at concrete ends.
use solicit.Base.{◌≢◌, ap, sym, ℕ, ◌≡◌, refl, arith, List, [], ◌∷◌, ◌++◌, some, value, ◌⊎◌}
use solicit.Http.Error.{success, HttpError}
use solicit.Http.Response.{HttpScheme}
use solicit.Session.Stream.{DefaultStream}
use solicit.Session.State.{server_state}
use solicit.Connection.Defs
use solicit.Client.Connector.{ClientStream, ConnectResult, connected, CleartextConnector, over_tcp}
use solicit.Client.Connector
use solicit.Client.Tls.{Openssl, TlsConnector, handshake, tls}
use solicit.Client.Tls
use solicit.Http.Run.{ok, fault}
use solicit.Client.Connector.Preface.{IsSink}
use solicit.Client.Tls.Negotiated.{Opened, NotSupported, connect-handshake}
use solicit.SimpleServer.{SimpleServer, new}
use solicit.SimpleServer.Establish.{new-over_tcp}
use solicit.Tests.Codec.{plain}
use solicit.Tests.Pipe.{Pipe, start, pipe, pipe-IsStream}

-- A crate whose every operation succeeds, and whose peers select "h2-14".
abbrev willing : Openssl
willing = record {
  Method = Unit {0};
  Context = List (List ℕ);
  Ssl = List (List ℕ);
  SslError = Unit {0};
  CaPath = List ℕ;
  Tcp = Pipe;
  SslStream = Pipe;
  tlsv1_2 = tt;
  verify_peer = 1;
  fail_if_no_peer_cert = 2;
  no_compression = 4;
  new_context = λ m. connected [];
  set_verify = λ mode ctx. ctx;
  set_ca_file = λ path ctx. connected ctx;
  set_options = λ bits ctx. ctx;
  set_npn_protocols = λ protocols ctx. protocols;
  new_ssl = λ ctx. connected ctx;
  set_hostname = λ host ssl. connected ssl;
  new_from = λ ssl tcp. connected tcp;
  get_selected_npn_protocol = λ s. some (b'h' ∷ b'2' ∷ b'-' ∷ b'1' ∷ b'4' ∷ []);
}

abbrev secure : TlsConnector willing
secure = Tls.new (b'a' ∷ []) (b'c' ∷ [])

abbrev dial : List ℕ → ℕ → ConnectResult HttpError Pipe
dial host port = connected (start [])

secure-handshake : handshake secure (dial secure.host 443) ≡ connected (start [])
unfolding handshake Tls.new
secure-handshake = refl

write_taken :
    (bytes : List ℕ) (t t' : Pipe)
    → pipe.write_all bytes t ≡ ok tt t'
    → t'.written ≡ t.written ++ bytes
write_taken bytes t t' done =
    let same : record t { written = t.written ++ bytes } ≡ t' = cc in ap (λ z. z.written) (sym same)

writes_return : (bytes : List ℕ) (t : Pipe) → pipe.write_all bytes t ≢ fault
writes_return bytes t e = absurd cc

abbrev pipe-IsSink : IsSink pipe
pipe-IsSink = record {
  accepted = λ t. t.written;
  write_all_ok = write_taken;
  write_all_returns = writes_return;
}

connect-handshake_example :
    Opened pipe-IsSink secure.host (start []) ((tls dial).connect secure)
    ⊎ NotSupported pipe-IsSink (start []) ((tls dial).connect secure)
connect-handshake_example = connect-handshake pipe-IsSink dial secure (start []) secure-handshake

-- The preface, and the settings of the client.
abbrev opening : List ℕ
opening = solicit.Client.preface ++ (0 ∷ 0 ∷ 6 ∷ 4 ∷ 0 ∷ 0 ∷ 0 ∷ 0 ∷ 0 ∷ 0 ∷ 2 ∷ 0 ∷ 0 ∷ 0 ∷ 0 ∷ [])

abbrev plain_text : CleartextConnector
plain_text = Connector.new (b'a' ∷ [])

abbrev client_end : ClientStream Pipe
client_end = record {
  stream = record { unread = []; written = opening };
  scheme = HttpScheme.http;
  host = b'a' ∷ [];
}

plain_text_lem : over_tcp plain_text (connected (start [])) ≡ value (connected client_end)
unfolding over_tcp Connector.new solicit.Frame.Settings.serialize_into
    solicit.Frame.Settings.write_settings solicit.Frame.Settings.add_setting
    solicit.Frame.Settings.new solicit.Frame.Builder.write_all solicit.Frame.Builder.write_header
    solicit.Frame.Header.pack_header solicit.Base.octet solicit.Frame.Settings.serialize_setting
    solicit.Frame.Settings.payload_len solicit.Frame.Settings.get_id solicit.Frame.Settings.get_val
plain_text_lem = refl

new-over_tcp_example :
    (s : SimpleServer plain Pipe ℕ) × (new success 5 (start (opening ++ (7 ∷ [])))
      ≡ value (success s))
    × (s.handler ≡ 5)
    × (s.conn.state ≡ server_state DefaultStream)
    × (s.conn.conn ≡ Defs.new plain HttpScheme.http)
    × (s.receiver.unread ≡ 7 ∷ [])
new-over_tcp_example =
    new-over_tcp pipe-IsStream success (λ t. (t, refl, refl)) 5 plain_text (start [])
      (start (opening ++ (7 ∷ []))) client_end (7 ∷ []) refl plain_text_lem refl
