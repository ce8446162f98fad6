-- ===== src/SimpleServer/Establish.antt =====
-- server/mod.rs: a server for a client that opened the connection.
use solicit.Base.{ℕ, ◌≡◌, refl, sym, ◌∙◌, List, [], ◌++◌, append_assoc, value}
use solicit.Http.Error.{HttpResult, success}
use solicit.Http.Run.{ok}
use solicit.Frame.Settings
use solicit.Frame.Raw.{has_flag}
use solicit.Session.State.{server_state}
use solicit.Session.Stream.{DefaultStream, default_stream}
use solicit.Connection.HttpFrame.{settings_frame, serialize_into}
use solicit.Http.Response.{HttpScheme}
use solicit.Http.Response.Octets.{bytes_eq_refl}
use solicit.Connection.Defs
use solicit.Connection.Defs.{Hpack, HttpConnection}
use solicit.Connection.Send.{send_settings_ack}
use solicit.Connection.Handle.Handshake.{expect_settings-opening}
use solicit.Transport.{TransportStream, read_exact, transport_send, transport_receive}
use solicit.Transport.ReadExact.{IsStream, read_exact_complete}
use solicit.Transport.Delivery.{octets_of, recv_frame-octets, send_frame-octets}
use solicit.Client.{preface}
use solicit.Client.Connector.{ClientStream, connected, CleartextConnector, over_tcp}
use solicit.Client.Connector.Preface.{client_settings, settings-IsWellFormed, over_tcp-octets}
use solicit.Server
use solicit.Server.{World, server_session}
use solicit.Server.Handshake.{ack-IsWellFormed, server_sends_ack}
use solicit.SimpleServer.{SimpleServer, simple_factory, new, handshake, on_conn}

module _ {hpack : Hpack} {T : Type 0} ⦃ts : TransportStream T⦄ (stream : IsStream ts) where
  -- The server takes the settings of the client, and acknowledges them.
  expect_settings-client_settings :
      (receiver sender : T) (conn : HttpConnection hpack) (rest : List ℕ)
      → stream.unread receiver
        ≡ octets_of (settings_frame client_settings) settings-IsWellFormed ++ rest
      → (receiver' sender' : T) × (Server.expect_settings hpack
            (receiver, ((server_state DefaultStream, tt, sender), conn))
          ≡ ok tt (receiver', ((server_state DefaultStream, tt, sender'), conn)))
        × (stream.unread receiver' ≡ rest)
        × (stream.written sender'
            ≡ stream.written sender ++ octets_of (settings_frame Settings.new_ack) ack-IsWellFormed)
  unfolding Server.expect_settings Settings.is_ack Settings.is_set has_flag Settings.new
      Settings.add_setting Server.new_settings send_settings_ack serialize_into
  expect_settings-client_settings receiver sender conn rest octets =
      let frame = settings_frame client_settings in
      let (receiver', got, left) =
        recv_frame-octets stream frame settings-IsWellFormed rest receiver octets in
      let (sender', sent, grown) =
        send_frame-octets stream (settings_frame Settings.new_ack) ack-IsWellFormed sender in
      (
        receiver',
        sender',
        expect_settings-opening hpack (server_session hpack) frame receiver receiver'
              ((server_state DefaultStream, tt, sender), conn) got
            ∙ rw sent refl,
        left,
        grown,
      )

  -- Over streams that give their octets in order and take every write: if a connector for clear text
  -- opened a connection on which nothing was written before, and a server whose unread octets are
  -- those written, with any octets behind, is created over a stream whose splits succeed with the
  -- same octets, then it is created: with the given handler, with no streams, with a fresh
  -- connection, and with the octets behind yet to be read.
  pub new-over_tcp :
      {H : Type 0} (try_split : T → HttpResult T)
      (splits : (t : T) → (r : T) × (try_split t ≡ success r) × (stream.unread r ≡ stream.unread t))
      (handler : H) (c : CleartextConnector) (dialed accepted : T) (client : ClientStream T)
      (rest : List ℕ)
      → stream.written dialed ≡ []
      → over_tcp c (connected dialed) ≡ value (connected client)
      → stream.unread accepted ≡ stream.written client.stream ++ rest
      → (s : SimpleServer hpack T H) × (new try_split handler accepted ≡ value (success s))
        × (s.handler ≡ handler)
        × (s.conn.state ≡ server_state DefaultStream)
        × (s.conn.conn ≡ Defs.new hpack HttpScheme.http)
        × (stream.unread s.receiver ≡ rest)
  unfolding new handshake on_conn Server.send_settings send_settings_ack serialize_into
  new-over_tcp try_split splits handler c dialed accepted client rest fresh opened same =
      let settings = octets_of (settings_frame client_settings) settings-IsWellFormed in
      let (after, done, grown) = over_tcp-octets stream c dialed in
      let end : after ≡ client.stream = cc (done, opened) in
      let octets : stream.unread accepted ≡ preface ++ (settings ++ rest) =
        rw (same, sym end, grown, fresh) (append_assoc preface settings rest) in
      let (stream', first, left) =
        read_exact_complete stream preface (settings ++ rest) accepted octets in
      let first24 : read_exact 24 accepted ≡ ok preface stream' = first in
      let (receiver, split, shared) = splits stream' in
      let (sender, acked, wrote) =
        server_sends_ack hpack stream (server_state DefaultStream) tt stream'
          (Defs.new hpack HttpScheme.http) in
      let (receiver', sender', settled, left', wrote') =
        expect_settings-client_settings receiver sender (Defs.new hpack HttpScheme.http) rest
          (shared ∙ left) in
      (
        record {
          conn = record {
            conn = Defs.new hpack HttpScheme.http;
            state = server_state DefaultStream;
          };
          receiver = receiver';
          sender = sender';
          handler = handler;
        },
        rw (first24, bytes_eq_refl preface, split, acked, settled) refl,
        refl,
        refl,
        refl,
        left',
      )
