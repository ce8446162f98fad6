-- ===== src/Client/Connector.antt =====
-- http/client/mod.rs: how a client is connected, and the connector for clear text.
pub mod Preface
use solicit.Base.{ℕ, List, Exec, value, panic}
use solicit.Http.Error.{HttpError, other}
use solicit.Http.Run.{Run, ok, err, fault}
use solicit.Http.Response.{HttpScheme}
use solicit.Transport.{TransportStream}
use solicit.Client.{write_preface}

pub record ClientStream (T : Type 0) : Type 0 where
  pub stream : T
  pub scheme : HttpScheme
  pub host : List ℕ

-- `Result<A, E>` of a step of a connection attempt.
pub data ConnectResult (E A : Type 0) : Type 0 where
  connected : A → ConnectResult E A
  refused : E → ConnectResult E A

-- The trait, for a connector of type `C` with its `Stream` and its `Err`.
pub record HttpConnect (C T E : Type 0) : Type 0 where
  pub connect : C → Exec (ConnectResult E (ClientStream T))

-- The number that stands for the error in a box.
pub record HttpConnectError (E : Type 0) : Type 0 where
  pub boxed : E → ℕ

-- `impl From<E> for HttpError`
unfoldable pub from_connect_error : {E : Type 0} ⦃marker : HttpConnectError E⦄ → E → HttpError
from_connect_error ⦃marker⦄ e = other (marker.boxed e)

pub record CleartextConnector : Type 0 where
  pub host : List ℕ
  pub port : ℕ

unfoldable pub new : List ℕ → CleartextConnector
new host = record { host = host; port = 80 }

unfoldable pub with_port : List ℕ → ℕ → CleartextConnector
with_port host port = record { host = host; port = port }

pub data CleartextConnectError : Type 0 where
  connect_failure : HttpError → CleartextConnectError

module _ {T : Type 0} ⦃ts : TransportStream T⦄ where
  -- `try!(write_preface(&mut stream))`, with the conversion of its error, and the result.
  abbrev pub opened :
      {E : Type 0}
      → (HttpError → E)
      → HttpScheme
      → List ℕ
      → Run T (Unit {0})
      → Exec (ConnectResult E (ClientStream T))
  opened from scheme host (ok a stream) =
      value (connected (record { stream = stream; scheme = scheme; host = host }))
  opened from scheme host (err e stream) = value (refused (from e))
  opened from scheme host fault = panic

  -- What `connect` does with the result of `TcpStream::connect`.
  unfoldable pub over_tcp :
      CleartextConnector
      → ConnectResult HttpError T
      → Exec (ConnectResult CleartextConnectError (ClientStream T))
  unfolding write_preface
  over_tcp c (refused e) = value (refused (connect_failure e))
  over_tcp c (connected stream) =
      opened connect_failure HttpScheme.http c.host (write_preface ts.write_all stream)

  -- `TcpStream::connect` is given, for a host and a port.
  abbrev pub cleartext :
      (List ℕ → ℕ → ConnectResult HttpError T)
      → HttpConnect CleartextConnector T CleartextConnectError
  cleartext tcp_connect = record { connect = λ c. over_tcp c (tcp_connect c.host c.port) }
