-- ===== src/Http/Error.antt =====
-- http/mod.rs: error codes, connection errors and the errors of a connection.
pub mod Codes
use solicit.Base.{ℕ, List, Option, ◌==◌, if◌then◌else◌}

pub data ErrorCode : Type 0 where
  no_error protocol_error internal_error flow_control_error settings_timeout : ErrorCode
  stream_closed frame_size_error refused_stream cancel compression_error : ErrorCode
  connect_error enhance_your_calm inadequate_security http11_required : ErrorCode

-- `impl From<u32> for ErrorCode`
unfoldable pub from_u32 : ℕ → ErrorCode
from_u32 code =
    if code == 0x0
    then no_error
    else (if code == 0x1
        then protocol_error
        else (if code == 0x2
            then internal_error
            else (if code == 0x3
                then flow_control_error
                else (if code == 0x4
                    then settings_timeout
                    else (if code == 0x5
                        then stream_closed
                        else (if code == 0x6
                            then frame_size_error
                            else (if code == 0x7
                                then refused_stream
                                else (if code == 0x8
                                    then cancel
                                    else (if code == 0x9
                                        then compression_error
                                        else (if code == 0xa
                                            then connect_error
                                            else (if code == 0xb
                                                then enhance_your_calm
                                                else (if code == 0xc
                                                    then inadequate_security
                                                    else (if code == 0xd
                                                        then http11_required
                                                        else internal_error)))))))))))))

-- `impl Into<u32> for ErrorCode`: the discriminants of the enum.
unfoldable pub into_u32 : ErrorCode → ℕ
into_u32 no_error = 0x0
into_u32 protocol_error = 0x1
into_u32 internal_error = 0x2
into_u32 flow_control_error = 0x3
into_u32 settings_timeout = 0x4
into_u32 stream_closed = 0x5
into_u32 frame_size_error = 0x6
into_u32 refused_stream = 0x7
into_u32 cancel = 0x8
into_u32 compression_error = 0x9
into_u32 connect_error = 0xa
into_u32 enhance_your_calm = 0xb
into_u32 inadequate_security = 0xc
into_u32 http11_required = 0xd

pub record ConnectionError : Type 0 where
  pub error_code : ErrorCode
  pub debug_data : Option (List ℕ)

-- The payloads of `IoError`, `CompressionError` and `Other` are opaque here: a number stands for
-- the wrapped error.
pub data HttpError : Type 0 where
  io_error : ℕ → HttpError
  invalid_frame : HttpError
  peer_connection_error : ConnectionError → HttpError
  compression_failure : ℕ → HttpError
  window_size_overflow unknown_stream_id unable_to_connect malformed_response : HttpError
  other : ℕ → HttpError

-- `Result<T, HttpError>`
pub data HttpResult {ℓ} (A : Type ℓ) : Type ℓ where
  success : A → HttpResult A
  failure : HttpError → HttpResult A
