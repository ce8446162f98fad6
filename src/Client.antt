-- ===== src/Client.antt =====
-- http/client/mod.rs: the preface, the client's session and the client connection.
pub mod Requests
pub mod Names
pub mod Labels
pub mod Flush
pub mod Connector
pub mod Tls
pub mod Chunks
use solicit.Base.{
  ℕ, ◌*◌, Bool, List, [], ◌∷◌, Option, none, some, Exec, value, panic, replicate, if◌then◌else◌,
}
use solicit.Http.Error.{ErrorCode, HttpError, HttpResult, success, failure}
use solicit.Http.Run.{Run, ok, err, fault, M, followed_by, ◌>>=◌, ◌>>◌, pure, lift}
use solicit.Http.Response.{Header, HttpScheme}
use solicit.Frame.Builder.{Cursor}
use solicit.Frame.Settings.{HttpSetting, enable_push}
use solicit.Frame.Settings
use solicit.Session.Stream.{Stream, is_closed_local, close}
use solicit.Session.State.{SessionState, insert_outgoing, change_stream, get_stream_ref}
use solicit.Priority.{EndStream, yes_end, no_end, DataChunk}
use solicit.Priority
use solicit.Connection.Defs.{
  Hpack, SendFrame, ReceiveFrame, HttpConnection, Session, default_on_goaway,
}
use solicit.Connection.Send.{
  SendStatus, DataPrioritizer, send_settings_ack, send_headers, on_second,
}
use solicit.Connection.Send
use solicit.Connection.Handle

-- "PRI * HTTP/2.0\r\n\r\nSM\r\n\r\n"
abbrev pub preface : List ℕ
preface =
    0x50 ∷ 0x52 ∷ 0x49 ∷ 0x20 ∷ 0x2a ∷ 0x20 ∷ 0x48 ∷ 0x54 ∷ 0x54 ∷ 0x50 ∷ 0x2f ∷ 0x32 ∷ 0x2e ∷ 0x30
    ∷ 0x0d ∷ 0x0a ∷ 0x0d ∷ 0x0a ∷ 0x53 ∷ 0x4d ∷ 0x0d ∷ 0x0a ∷ 0x0d ∷ 0x0a ∷ []

-- `io::Write::write_all` of the stream, which is not this library's.
module _ {W : Type 0} (write_all : List ℕ → M W (Unit {0})) where
  unfoldable pub write_preface : M W (Unit {0})
  write_preface = do
    write_all preface
    let settings = Settings.add_setting Settings.new (enable_push 0)
    buf ← lift (Settings.serialize_into settings (record { buffer = []; position = 0 }))
    write_all buf.buffer

pub record RequestStream (S : Type 0) : Type 0 where
  pub headers : List Header
  pub stream : S

-- The size of the buffer that the data of one frame is read into: 8 KiB.
abbrev pub max_chunk_size : ℕ
max_chunk_size = 8 * 1024

-- `SimplePrioritizer` over the streams of a session state and a fresh buffer.
unfoldable pub simple_prioritizer :
    {S : Type 0} ⦃t : Stream S⦄ → ℕ → DataPrioritizer (SessionState S)
simple_prioritizer size = record {
  get_next_chunk = λ st. elim (Priority.get_next_chunk st.streams (replicate size 0)) [
    | panic ↦ fault
    | value r ↦
        let st' = record st { streams = r.0 } in
        elim r.1 [ success c ↦ ok c st' | failure e ↦ err e st' ]
  ];
}

-- `ClientConnection`, as a part of what owns it.
pub record ClientConnection (hpack : Hpack) (S : Type 0) : Type 0 where
  pub conn : HttpConnection hpack
  pub state : SessionState S

module _ {hpack : Hpack} {S : Type 0} where
  unfoldable pub with_connection : HttpConnection hpack → SessionState S → ClientConnection hpack S
  with_connection conn state = record { conn = conn; state = state }

  unfoldable pub scheme : ClientConnection hpack S → HttpScheme
  scheme c = c.conn.scheme

-- `ClientSession`: the session state and the sender.
abbrev pub ClientSession : Type 0 → Type 0 → Type 0
ClientSession S Tx = SessionState S × Tx

-- The session and the connection, which every method changes.
abbrev pub World : Hpack → Type 0 → Type 0 → Type 0
World hpack S Tx = ClientSession S Tx × HttpConnection hpack

module _ (hpack : Hpack) {S Tx : Type 0} ⦃t : Stream S⦄ ⦃tx : SendFrame Tx⦄ where
  -- A change of one stream; an unknown stream is ignored.
  unfoldable pub on_stream : ℕ → (S → S) → M (World hpack S Tx) (Unit {0})
  on_stream stream_id f ((st, out), conn) = ok tt ((change_stream st stream_id f, out), conn)

  -- A result of the connection and the sender.
  abbrev pub from_sender :
      {A : Type 0} → SessionState S → Run (HttpConnection hpack × Tx) A → Run (World hpack S Tx) A
  from_sender st (ok a (conn, out)) = ok a ((st, out), conn)
  from_sender st (err e (conn, out)) = err e ((st, out), conn)
  from_sender st fault = fault

  unfoldable pub new_settings : List HttpSetting → M (World hpack S Tx) (Unit {0})
  new_settings settings ((st, out), conn) = from_sender st (send_settings_ack hpack (conn, out))

  abbrev pub client_session : Session hpack (ClientSession S Tx)
  client_session = record {
    new_data_chunk = λ stream_id bytes. on_stream stream_id (t.new_data_chunk bytes);
    new_headers = λ stream_id headers. on_stream stream_id (t.set_headers headers);
    end_of_stream = λ stream_id. on_stream stream_id close;
    rst_stream = λ stream_id error_code. on_stream stream_id (t.on_rst_stream error_code);
    new_settings = new_settings;
    on_goaway = default_on_goaway hpack;
  }

  -- `ClientConnection`, with the sender that its methods are given.
  unfoldable pub start_request : RequestStream S → M (World hpack S Tx) ℕ
  start_request req ((st, out), conn) =
      let end_stream : EndStream = if is_closed_local req.stream then yes_end else no_end in
      let (st', stream_id) = insert_outgoing st req.stream in
      let sent = send_headers hpack req.headers stream_id end_stream (conn, out) in
      followed_by (from_sender st' sent) (λ _. pure stream_id)

  unfoldable pub send_next_data : M (World hpack S Tx) SendStatus
  send_next_data ((st, out), conn) =
      elim (Send.send_next_data hpack (simple_prioritizer max_chunk_size) ((conn, out), st)) [
        | ok a ((conn', out'), st') ↦ ok a ((st', out'), conn')
        | err e ((conn', out'), st') ↦ err e ((st', out'), conn')
        | fault ↦ fault
      ]

  module _ {Rx : Type 0} ⦃rx : ReceiveFrame Rx⦄ where
    unfoldable pub handle_next_frame : M (Rx × World hpack S Tx) (Unit {0})
    handle_next_frame = Handle.handle_next_frame hpack client_session

    unfoldable pub expect_settings : M (Rx × World hpack S Tx) (Unit {0})
    expect_settings = Handle.expect_settings hpack client_session
