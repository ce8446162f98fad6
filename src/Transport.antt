-- ===== src/Transport.antt =====
-- http/transport.rs: frames over a stream of octets.
pub mod ReadExact
pub mod Delivery
use solicit.Base.{
  ℕ, zero, suc, ◌+◌, ◌-◌, Bool, true, false, List, [], ◌∷◌, ◌++◌, length, ltb, ◌==◌, if◌then◌else◌,
}
use solicit.Http.Error.{HttpError, HttpResult, io_error, success, failure}
use solicit.Http.Run.{Run, ok, err, fault, M, ◌>>=◌, ◌>>◌, pure, throw, lift}
use solicit.Frame.Header.{FrameHeader, unpack_header}
use solicit.Frame.Builder.{Cursor}
use solicit.Frame.Raw.{RawFrame, raw_from}
use solicit.Connection.HttpFrame.{HttpFrame, from_raw}
use solicit.Connection.Defs.{FrameIr, SendFrame, ReceiveFrame}

-- `io::Read` and `io::Write` of the stream, which are not this library's. A read into a buffer of
-- the given size gives the octets that it placed there.
pub record TransportStream (T : Type 0) : Type 0 where
  pub read : ℕ → M T (List ℕ)
  pub write_all : List ℕ → M T (Unit {0})

-- The error "Not enough bytes", of kind `Other`.
abbrev pub not_enough_bytes : HttpError
not_enough_bytes = io_error 0

-- `Result` as a step that changes nothing.
abbrev pub from_result {ℓ κ} : {W : Type ℓ} {A : Type κ} → HttpResult A → M W A
from_result (success a) w = ok a w
from_result (failure e) w = err e w

module _ {T : Type 0} ⦃ts : TransportStream T⦄ where
  -- What the loop does with the result of a read: it goes on with the octets if there are any.
  unfoldable pub after_read : (List ℕ → M T (List ℕ)) → Run T (List ℕ) → Run T (List ℕ)
  after_read continue (ok bytes t) = elim (length bytes == 0) [
    | true ↦ err not_enough_bytes t
    | false ↦ continue bytes t
  ]
  after_read continue (err e t) = err e t
  after_read continue fault = fault

  -- The loop of `read_exact`, for the octets read so far: `total` is their number. A loop that has
  -- no fuel left is a `fault`.
  unfoldable pub read_loop : ℕ → ℕ → List ℕ → M T (List ℕ)
  unfolding after_read
  read_loop zero size filled t = if ltb (length filled) size then fault else ok filled t
  read_loop (suc fuel) size filled t = elim (ltb (length filled) size) [
    | false ↦ ok filled t
    | true ↦
        after_read (λ bytes. read_loop fuel size (filled ++ bytes))
          (ts.read (size - length filled) t)
  ]

  -- Every turn of the loop reads at least one octet.
  unfoldable pub read_exact : ℕ → M T (List ℕ)
  read_exact size = read_loop size size []

  unfoldable pub send_frame : FrameIr → M T (Unit {0})
  send_frame frame = do
    buf ← lift (frame (record { buffer = []; position = 0 }))
    ts.write_all buf.buffer

  unfoldable pub recv_frame : M T HttpFrame
  recv_frame = do
    raw_header ← read_exact 9
    header ← lift (unpack_header raw_header)
    payload ← read_exact header.0
    result ← lift (from_raw (raw_from (raw_header ++ payload)))
    from_result result

  instance abbrev pub transport_send : SendFrame T
  transport_send = record { send_frame = send_frame }

  -- `TransportReceiveFrame`
  instance abbrev pub transport_receive : ReceiveFrame T
  transport_receive = record { recv_frame = recv_frame }
