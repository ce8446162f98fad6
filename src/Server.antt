-- ===== src/Server.antt =====
-- http/server.rs: the server's session and the server connection.
pub mod Requests
pub mod Handshake
pub mod EndToEnd
use solicit.Base.{ℕ, Bool, true, false, List, Option, none, some}
use solicit.Http.Error.{ErrorCode, HttpError}
use solicit.Http.Run.{Run, ok, err, fault, M, ◌>>=◌, ◌>>◌, pure}
use solicit.Http.Response.{Header}
use solicit.Frame.Settings.{HttpSetting}
use solicit.Session.Stream.{Stream, close_remote}
use solicit.Session.State.{SessionState, insert_incoming, change_stream, get_stream_ref}
use solicit.Priority.{EndStream}
use solicit.Connection.Defs.{
  Hpack, SendFrame, ReceiveFrame, HttpConnection, Session, default_on_goaway,
}
use solicit.Connection.Send.{SendStatus, send_settings_ack, send_headers}
use solicit.Connection.Send
use solicit.Connection.Handle
use solicit.Client.{simple_prioritizer, max_chunk_size}

-- `StreamFactory`, for its state: a stream for a new identifier.
pub record StreamFactory (F S : Type 0) : Type 0 where
  pub create : ℕ → F → S × F

-- `ServerSession`: the session state, the factory and the sender.
abbrev pub ServerSession : Type 0 → Type 0 → Type 0 → Type 0
ServerSession S F Tx = SessionState S × F × Tx

-- The session and the connection, which every method changes.
abbrev pub World : Hpack → Type 0 → Type 0 → Type 0 → Type 0
World hpack S F Tx = ServerSession S F Tx × HttpConnection hpack

module _ (hpack : Hpack) {S F Tx : Type 0} ⦃t : Stream S⦄ ⦃factory : StreamFactory F S⦄
    ⦃tx : SendFrame Tx⦄ where
  -- A change of one stream; an unknown stream is ignored.
  unfoldable pub on_stream : ℕ → (S → S) → M (World hpack S F Tx) (Unit {0})
  on_stream stream_id f ((st, fac, out), conn) =
      ok tt ((change_stream st stream_id f, fac, out), conn)

  -- Headers on an unknown stream open it; a refused identifier is dropped without an error.
  unfoldable pub new_headers : ℕ → List Header → M (World hpack S F Tx) (Unit {0})
  new_headers stream_id headers ((st, fac, out), conn) = elim (get_stream_ref st stream_id) [
    | some _ ↦ ok tt ((change_stream st stream_id (t.set_headers headers), fac, out), conn)
    | none ↦
        let (stream, fac') = factory.create stream_id fac in
        let (st', _) = insert_incoming st stream_id (t.set_headers headers stream) in
        ok tt ((st', fac', out), conn)
  ]

  -- An action of the connection and the sender, and its result.
  abbrev pub from_sender :
      {A : Type 0}
      → SessionState S
      → F
      → Run (HttpConnection hpack × Tx) A
      → Run (World hpack S F Tx) A
  from_sender st fac (ok a (conn, out)) = ok a ((st, fac, out), conn)
  from_sender st fac (err e (conn, out)) = err e ((st, fac, out), conn)
  from_sender st fac fault = fault

  unfoldable pub on_sender :
      {A : Type 0} → M (HttpConnection hpack × Tx) A → M (World hpack S F Tx) A
  on_sender m ((st, fac, out), conn) = from_sender st fac (m (conn, out))

  unfoldable pub new_settings : List HttpSetting → M (World hpack S F Tx) (Unit {0})
  unfolding on_sender
  new_settings settings = on_sender (send_settings_ack hpack)

  abbrev pub server_session : Session hpack (ServerSession S F Tx)
  server_session = record {
    new_data_chunk = λ stream_id bytes. on_stream stream_id (t.new_data_chunk bytes);
    new_headers = new_headers;
    end_of_stream = λ stream_id. on_stream stream_id close_remote;
    rst_stream = λ stream_id error_code. on_stream stream_id (t.on_rst_stream error_code);
    new_settings = new_settings;
    on_goaway = default_on_goaway hpack;
  }

  -- `ServerConnection`, with the sender that its methods are given.
  unfoldable pub send_settings : M (World hpack S F Tx) (Unit {0})
  unfolding on_sender
  send_settings = on_sender (send_settings_ack hpack)

  unfoldable pub start_response : List Header → ℕ → EndStream → M (World hpack S F Tx) (Unit {0})
  unfolding on_sender
  start_response headers stream_id end_stream =
      on_sender (send_headers hpack headers stream_id end_stream)

  unfoldable pub send_next_data : M (World hpack S F Tx) SendStatus
  send_next_data ((st, fac, out), conn) =
      elim (Send.send_next_data hpack (simple_prioritizer max_chunk_size) ((conn, out), st)) [
        | ok a ((conn', out'), st') ↦ ok a ((st', fac, out'), conn')
        | err e ((conn', out'), st') ↦ err e ((st', fac, out'), conn')
        | fault ↦ fault
      ]

  module _ {Rx : Type 0} ⦃rx : ReceiveFrame Rx⦄ where
    unfoldable pub handle_next_frame : M (Rx × World hpack S F Tx) (Unit {0})
    handle_next_frame = Handle.handle_next_frame hpack server_session

    unfoldable pub expect_settings : M (Rx × World hpack S F Tx) (Unit {0})
    expect_settings = Handle.expect_settings hpack server_session
