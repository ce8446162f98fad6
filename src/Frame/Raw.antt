-- ===== src/Frame/Raw.antt =====
-- http/frame/mod.rs: raw frames, padded payloads and flags.
pub mod Padding
pub mod Parse
pub mod Flags
use solicit.Base.{
  ℕ, ◌+◌, ◌-◌, ◌%◌, Bool, not, List, Option, none, some, length, take, leb, ltb, ◌==◌,
  if◌then◌else◌, bit_and, bit_or, Exec, value, panic, ◌>>=◌, index, slice, slice_from, slice_to,
}
use solicit.Frame.Header.{FrameHeader, unpack_header}
use solicit.Frame.Builder.{Cursor, write_header, write_all}

-- The inner `None` is the code's: an invalid padding.
unfoldable pub parse_padded_payload : List ℕ → Exec (Option (List ℕ × ℕ))
parse_padded_payload payload =
    if length payload == 0
    then value none
    else index payload 0 >>= λ pad_len.
        if leb (length payload) pad_len
        then value none
        else slice payload 1 (length payload - pad_len) >>= λ actual.
            value (some (actual, pad_len % 256))

pub record RawFrame : Type 0 where
  pub raw_content : List ℕ

-- `impl From<Vec<u8>>` and `impl From<&[u8]>`
abbrev pub raw_from : List ℕ → RawFrame
raw_from raw = record { raw_content = raw }

unfoldable pub parse : List ℕ → Exec (Option RawFrame)
parse buf =
    if ltb (length buf) 9
    then value none
    else unpack_header (take 9 buf) >>= λ header. slice_from buf 9 >>= λ rest.
        if ltb (length rest) header.0
        then value none
        else slice_to buf (9 + header.0) >>= λ raw. value (some (raw_from raw))

unfoldable pub len : RawFrame → ℕ
len raw = length raw.raw_content

unfoldable pub serialize : RawFrame → List ℕ
serialize raw = raw.raw_content

-- The `assert!` is the panic of the first branch.
unfoldable pub header : RawFrame → Exec FrameHeader
header raw =
    if ltb (length raw.raw_content) 9 then panic else unpack_header (take 9 raw.raw_content)

unfoldable pub payload : RawFrame → Exec (List ℕ)
payload raw = slice_from raw.raw_content 9

unfoldable pub serialize_into : RawFrame → Cursor → Exec Cursor
unfolding header payload
serialize_into raw b = do
  h ← header raw
  bytes ← payload raw
  value (write_all bytes (write_header h b))

-- `(flags & bitmask) != 0`, the test behind every `is_set`.
unfoldable pub has_flag : ℕ → ℕ → Bool
has_flag flags bitmask = not (bit_and flags bitmask == 0)

-- `flags |= bitmask`, behind every `set_flag`.
unfoldable pub with_flag : ℕ → ℕ → ℕ
with_flag flags bitmask = bit_or flags bitmask

-- `Option::unwrap_or`
abbrev pub unwrap_or {ℓ} : {A : Type ℓ} → Option A → A → A
unwrap_or none d = d
unwrap_or (some a) d = a
