-- ===== src/SimpleClient/Connect.antt =====
-- client/simple.rs: a client for a connector.
use solicit.Base.{Exec, value, ◌>>=◌}
use solicit.Http.Error.{HttpResult, failure}
use solicit.Connection.Defs.{Hpack}
use solicit.Transport.{TransportStream}
use solicit.Client.Connector.{
  ClientStream, ConnectResult, connected, refused, HttpConnect, HttpConnectError,
  from_connect_error,
}
use solicit.SimpleClient.{SimpleClient, with_stream}

module _ {hpack : Hpack} {T E : Type 0} ⦃ts : TransportStream T⦄ ⦃marker : HttpConnectError E⦄
    (try_split : T → HttpResult T) where
  -- `try!` of the connection attempt, and `with_stream`.
  abbrev pub over_stream :
      ConnectResult E (ClientStream T) → Exec (HttpResult (SimpleClient hpack T))
  over_stream (connected c) = with_stream (try_split c.stream) c.stream c.host c.scheme
  over_stream (refused e) = value (failure (from_connect_error e))

  unfoldable pub with_connector :
      {C : Type 0} → HttpConnect C T E → C → Exec (HttpResult (SimpleClient hpack T))
  unfolding with_stream from_connect_error
  with_connector connector c = connector.connect c >>= over_stream
