-- ===== src/Server/Handshake.antt =====
-- http/server.rs and http/client/mod.rs: the first frame of the server, as the client takes it.
use solicit.Base.{ℕ, ◌≡◌, refl, sym, ◌∙◌, arith, List, [], ◌++◌}
use solicit.Http.Error.{unable_to_connect}
use solicit.Http.Run.{ok, err}
use solicit.Frame.Settings
use solicit.Frame.Raw.{has_flag}
use solicit.Session.Stream.{Stream}
use solicit.Session.State.{SessionState}
use solicit.Connection.HttpFrame.{HttpFrame, settings_frame}
use solicit.Connection.HttpFrame
use solicit.Connection.HttpFrame.RoundTrip.{IsWellFormed}
use solicit.Connection.Defs.{Hpack, HttpConnection, SendFrame}
use solicit.Connection.Send.{send_settings_ack}
use solicit.Connection.Handle.Handshake.{expect_settings-opening}
use solicit.Transport.{TransportStream, transport_send, transport_receive}
use solicit.Transport.ReadExact.{IsStream}
use solicit.Transport.Delivery.{octets_of, send_frame-octets, recv_frame-octets}
use solicit.Server.{StreamFactory, send_settings}
use solicit.Client
use solicit.Client.{client_session}

pub ack-IsWellFormed : IsWellFormed (settings_frame Settings.new_ack)
unfolding Settings.new_ack has_flag
ack-IsWellFormed = record {
  flags_fit = omega arith;
  fits = omega arith;
  values_fit = tt;
  ack_rule = refl;
}

module _ (hpack : Hpack) {T : Type 0} ⦃ts : TransportStream T⦄ (stream : IsStream ts) where
  pub server_sends_ack :
      {S F : Type 0} ⦃t : Stream S⦄ ⦃factory : StreamFactory F S⦄ (st : SessionState S) (fac : F)
      (out : T) (conn : HttpConnection hpack)
      → (out' : T) × (send_settings hpack ((st, fac, out), conn) ≡ ok tt ((st, fac, out'), conn))
        × (stream.written out'
            ≡ stream.written out ++ octets_of (settings_frame Settings.new_ack) ack-IsWellFormed)
  unfolding send_settings send_settings_ack HttpFrame.serialize_into
  server_sends_ack st fac out conn =
      let (out', sent, grown) =
        send_frame-octets stream (settings_frame Settings.new_ack) ack-IsWellFormed out in
      (out', rw sent refl, grown)

  -- Over streams of octets: if the first octets that a client receives are those that
  -- `ServerConnection::send_settings` wrote as the first ones on its stream,
  -- `ClientConnection::expect_settings` is an error, and the session and the connection of the client
  -- are as before.
  pub expect_settings_refuses-send_settings :
      {S F : Type 0} ⦃t : Stream S⦄ ⦃factory : StreamFactory F S⦄ (st : SessionState S) (fac : F)
      (out out' : T) (conn conn' : HttpConnection hpack) (rest : List ℕ) (receiver : T)
      {S' Tx : Type 0} ⦃t' : Stream S'⦄ ⦃tx : SendFrame Tx⦄ (world : Client.World hpack S' Tx)
      → stream.written out ≡ []
      → send_settings hpack ((st, fac, out), conn) ≡ ok tt ((st, fac, out'), conn')
      → stream.unread receiver ≡ stream.written out' ++ rest
      → (receiver' : T) × (Client.expect_settings hpack (receiver, world)
          ≡ err unable_to_connect (receiver', world))
  unfolding Client.expect_settings Settings.new_ack Settings.is_ack Settings.is_set has_flag
  expect_settings_refuses-send_settings st fac out out' conn conn' rest receiver world fresh sent
        same =
      let ack = settings_frame Settings.new_ack in
      let (after, done, grown) = server_sends_ack st fac out conn in
      let one : ok tt ((st, fac, after), conn) ≡ ok tt ((st, fac, out'), conn') = sym done ∙ sent in
      let end : after ≡ out' = cc in
      let octets : stream.unread receiver ≡ octets_of ack ack-IsWellFormed ++ rest =
        rw (same, sym end, grown, fresh) refl in
      let (receiver', got, left) =
        recv_frame-octets stream ack ack-IsWellFormed rest receiver octets in
      (
        receiver',
        expect_settings-opening hpack (client_session hpack) ack receiver receiver' world got,
      )
