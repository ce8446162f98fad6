-- ===== src/Async/System/Connect.antt =====
-- client/async.rs: a client for a connector.
use solicit.Base.{Option, Exec, value, panic, ◌>>=◌}
use solicit.Http.Error.{HttpResult, success, failure}
use solicit.Connection.Defs.{Hpack}
use solicit.Client.Connector.{ConnectResult, connected, refused, HttpConnect}
use solicit.Async.System.{System, with_connector}

-- `.ok().unwrap()` of a connection attempt, and `.unwrap()` of a split of the stream.
abbrev pub unwrap_connected : {E A : Type 0} → ConnectResult E A → Exec A
unwrap_connected (connected a) = value a
unwrap_connected (refused e) = panic

abbrev pub unwrap_split : {A : Type 0} → HttpResult A → Exec A
unwrap_split (success a) = value a
unwrap_split (failure e) = panic

module _ {hpack : Hpack} {C T E : Type 0} where
  -- The stream is split once more for the handle that closes the socket in the end.
  unfoldable pub connect_client :
      (T → HttpResult T) → HttpConnect C T E → C → Exec (Option (System hpack T))
  unfolding with_connector
  connect_client try_split connector c = do
    result ← connector.connect c
    client_stream ← unwrap_connected result
    sck ← unwrap_split (try_split client_stream.stream)
    sender ← unwrap_split (try_split client_stream.stream)
    value (with_connector hpack client_stream.stream sender client_stream.scheme client_stream.host)
