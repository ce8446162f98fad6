-- ===== src/Connection/Defs.antt =====
-- http/connection.rs: the connection, what it sends to and receives from, and the callbacks.
use solicit.Base.{ℕ, List, Option, Exec}
use solicit.Http.Error.{ErrorCode, peer_connection_error}
use solicit.Http.Run.{M, throw}
use solicit.Http.Response.{Header, OwnedHeader, HttpScheme}
use solicit.Http.Window.{WindowSize, initial_connection_window_size}
use solicit.Http.Window
use solicit.Frame.Builder.{Cursor}
use solicit.Frame.Settings.{HttpSetting}
use solicit.Connection.HttpFrame.{HttpFrame}

pub data DecodeResult : Type 0 where
  decoded : List OwnedHeader → DecodeResult
  undecodable : ℕ → DecodeResult

-- The `hpack` crate: its contexts, and what it makes of a header list and of a header block. The
-- error of the decoder is a number. No hypothesis on it stands here.
pub record Hpack : Type 1 where
  pub Encoder : Type 0
  pub Decoder : Type 0
  pub new_encoder : Encoder
  pub new_decoder : Decoder
  pub encode : Encoder → List OwnedHeader → List ℕ × Encoder
  pub decode : Decoder → List ℕ → DecodeResult × Decoder

-- `FrameIR`: how a frame serializes itself.
abbrev pub FrameIr : Type 0
FrameIr = Cursor → Exec Cursor

-- `SendFrame` and `ReceiveFrame`, for the state of the sender and of the receiver.
pub record SendFrame (Tx : Type 0) : Type 0 where
  pub send_frame : FrameIr → M Tx (Unit {0})

pub record ReceiveFrame (Rx : Type 0) : Type 0 where
  pub recv_frame : M Rx HttpFrame

module _ (hpack : Hpack) where
  pub record HttpConnection : Type 0 where
    pub decoder : hpack.Decoder
    pub encoder : hpack.Encoder
    pub out_window_size : WindowSize
    pub in_window_size : WindowSize
    pub scheme : HttpScheme

  unfoldable pub new : HttpScheme → HttpConnection
  unfolding Window.new
  new scheme = record {
    scheme = scheme;
    decoder = hpack.new_decoder;
    encoder = hpack.new_encoder;
    in_window_size = Window.new initial_connection_window_size;
    out_window_size = Window.new initial_connection_window_size;
  }

  -- The callbacks of the trait `Session`. Each has the session and the connection to change.
  pub record Session (Sess : Type 0) : Type 0 where
    pub new_data_chunk : ℕ → List ℕ → M (Sess × HttpConnection) (Unit {0})
    pub new_headers : ℕ → List Header → M (Sess × HttpConnection) (Unit {0})
    pub end_of_stream : ℕ → M (Sess × HttpConnection) (Unit {0})
    pub rst_stream : ℕ → ErrorCode → M (Sess × HttpConnection) (Unit {0})
    pub new_settings : List HttpSetting → M (Sess × HttpConnection) (Unit {0})
    pub on_goaway : ℕ → ErrorCode → Option (List ℕ) → M (Sess × HttpConnection) (Unit {0})

  -- The implementation that the trait provides for `on_goaway`.
  unfoldable pub default_on_goaway :
      {Sess : Type 0} → ℕ → ErrorCode → Option (List ℕ) → M (Sess × HttpConnection) (Unit {0})
  default_on_goaway last_stream_id error_code debug_data =
      throw (peer_connection_error (record { error_code = error_code; debug_data = debug_data }))
