-- ===== src/Frame/Headers.antt =====
-- http/frame/headers.rs: the HEADERS frame and its stream dependency.
pub mod RoundTrip
pub mod Panics
use solicit.Base.{
  ℕ, ◌+◌, ◌%◌, ◌^◌, Bool, true, false, List, [], ◌∷◌, Option, none, some, length, ◌==◌, not,
  if◌then◌else◌, Exec, value, panic, ◌>>=◌, index, slice_from, slice_to, octet, clear_top_bit,
  bit_and, bit_or,
}
use solicit.Frame.Header.{FrameHeader, unpack_octets_4}
use solicit.Frame.Builder.{Cursor, write_all, write_header, write_padding}
use solicit.Frame.Raw.{RawFrame, parse_padded_payload, has_flag, with_flag, unwrap_or}
use solicit.Frame.Raw

pub data HeadersFlag : Type 0 where
  end_stream end_headers padded priority : HeadersFlag

abbrev pub bitmask : HeadersFlag → ℕ
bitmask end_stream = 0x1
bitmask end_headers = 0x4
bitmask padded = 0x8
bitmask priority = 0x20

pub record StreamDependency : Type 0 where
  pub stream_id : ℕ
  pub weight : ℕ
  pub is_exclusive : Bool

unfoldable pub parse_dependency : List ℕ → Exec StreamDependency
unfolding unpack_octets_4
parse_dependency buf = do
  first ← index buf 0
  id ← unpack_octets_4 buf 0
  weight ← index buf 4
  value (record {
    stream_id = clear_top_bit id;
    weight = weight;
    is_exclusive = not (bit_and first 0x80 == 0);
  })

unfoldable pub serialize_dependency : StreamDependency → List ℕ
serialize_dependency dep =
    let e_bit = if dep.is_exclusive then 128 else 0 in
    bit_or (octet dep.stream_id 24) e_bit
    ∷ octet dep.stream_id 16
    ∷ octet dep.stream_id 8
    ∷ octet dep.stream_id 0
    ∷ dep.weight
    ∷ []

pub record HeadersFrame : Type 0 where
  pub header_fragment : List ℕ
  pub stream_id : ℕ
  pub stream_dep : Option StreamDependency
  pub padding_len : Option ℕ
  pub flags : ℕ

unfoldable pub new : List ℕ → ℕ → HeadersFrame
new fragment stream_id = record {
  header_fragment = fragment;
  stream_id = stream_id;
  stream_dep = none;
  padding_len = none;
  flags = 0;
}

unfoldable pub with_dependency : List ℕ → ℕ → StreamDependency → HeadersFrame
with_dependency fragment stream_id dep = record {
  header_fragment = fragment;
  stream_id = stream_id;
  stream_dep = some dep;
  padding_len = none;
  flags = bitmask priority;
}

unfoldable pub is_set : HeadersFrame → HeadersFlag → Bool
is_set f flag = has_flag f.flags (bitmask flag)

unfoldable pub is_headers_end : HeadersFrame → Bool
unfolding is_set
is_headers_end f = is_set f end_headers

unfoldable pub is_end_of_stream : HeadersFrame → Bool
unfolding is_set
is_end_of_stream f = is_set f end_stream

unfoldable pub set_flag : HeadersFrame → HeadersFlag → HeadersFrame
set_flag f flag = record f { flags = with_flag f.flags (bitmask flag) }

unfoldable pub set_padding : HeadersFrame → ℕ → HeadersFrame
unfolding set_flag
set_padding f padding_len = set_flag (record f { padding_len = some padding_len }) padded

-- The sums and the cast wrap at 2 ^ 32.
unfoldable pub payload_len : HeadersFrame → ℕ
unfolding is_set
payload_len f =
    let padding = if is_set f padded then 1 + unwrap_or f.padding_len 0 else 0 in
    let priority_len = if is_set f priority then 5 else 0 in
    (length f.header_fragment % 2 ^ 32 + priority_len + padding) % 2 ^ 32

-- The payload without its padding, and the padding length.
unfoldable pub strip_padding : List ℕ → Bool → Exec (Option (List ℕ × Option ℕ))
strip_padding payload true = do
  parsed ← parse_padded_payload payload
  value (elim parsed [ none ↦ none | some (actual, pad_len) ↦ some (actual, some pad_len) ])
strip_padding payload false = value (some (payload, none))

-- The fragment and the dependency in front of it. The slices panic on less than 5 octets.
unfoldable pub split_dependency : List ℕ → Bool → Exec (List ℕ × Option StreamDependency)
unfolding parse_dependency
split_dependency actual true = do
  fragment ← slice_from actual 5
  front ← slice_to actual 5
  dep ← parse_dependency front
  value (fragment, some dep)
split_dependency actual false = value (actual, none)

unfoldable pub from_payload : ℕ → ℕ → List ℕ → Exec (Option HeadersFrame)
unfolding strip_padding split_dependency
from_payload flags stream_id payload = do
  stripped ← strip_padding payload (has_flag flags (bitmask padded))
  elim stripped [
    | none ↦ value none
    | some (actual, pad_len) ↦
        split_dependency actual (has_flag flags (bitmask priority)) >>= λ split. value (
          some (record {
            header_fragment = split.0;
            stream_id = stream_id;
            stream_dep = split.1;
            padding_len = pad_len;
            flags = flags;
          }))
  ]

unfoldable pub from_raw : RawFrame → Exec (Option HeadersFrame)
unfolding from_payload
from_raw raw_frame = do
  (len, frame_type, flags, stream_id) ← Raw.header raw_frame
  payload ← Raw.payload raw_frame
  let parsed = from_payload flags stream_id payload
  if not (frame_type == 0x1)
      then value none
      else (if not (len == length payload)
          then value none
          else (if stream_id == 0 then value none else parsed))

unfoldable pub get_stream_id : HeadersFrame → ℕ
get_stream_id f = f.stream_id

unfoldable pub get_header : HeadersFrame → FrameHeader
get_header f = (payload_len f, 0x1, f.flags, f.stream_id)

-- The dependency octets, written only if the flag is set; the flag with no dependency panics.
unfoldable pub write_dependency : Bool → Option StreamDependency → Cursor → Exec Cursor
write_dependency true none b = panic
write_dependency true (some dep) b = value (write_all (serialize_dependency dep) b)
write_dependency false stream_dep b = value b

unfoldable pub serialize_into : HeadersFrame → Cursor → Exec Cursor
unfolding get_header is_set
serialize_into f b =
    let is_padded = is_set f padded in
    let pad_len = unwrap_or f.padding_len 0 in
    let b1 = write_header (get_header f) b in
    let b2 = if is_padded then write_all (pad_len ∷ []) b1 else b1 in
    write_dependency (is_set f priority) f.stream_dep b2 >>= λ b3.
    let b4 = write_all f.header_fragment b3 in
    value (if is_padded then write_padding pad_len b4 else b4)
