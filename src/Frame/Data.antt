-- ===== src/Frame/Data.antt =====
-- http/frame/data.rs: the DATA frame. The field `data` of the source is `content` here.
pub mod RoundTrip
use solicit.Base.{
  ℕ, ◌+◌, ◌%◌, ◌^◌, Bool, true, false, List, [], ◌∷◌, Option, none, some, length, ◌==◌, not,
  if◌then◌else◌, Exec, value, ◌>>=◌,
}
use solicit.Frame.Header.{FrameHeader}
use solicit.Frame.Builder.{Cursor, write_all, write_header, write_padding}
use solicit.Frame.Raw.{RawFrame, parse_padded_payload, has_flag, with_flag, unwrap_or}
use solicit.Frame.Raw

pub data DataFlag : Type 0 where
  end_stream padded : DataFlag

abbrev pub bitmask : DataFlag → ℕ
bitmask end_stream = 0x1
bitmask padded = 0x8

pub record DataFrame : Type 0 where
  pub content : List ℕ
  pub flags : ℕ
  pub stream_id : ℕ
  pub padding_len : Option ℕ

unfoldable pub new : ℕ → DataFrame
new stream_id = record { stream_id = stream_id; flags = 0; content = []; padding_len = none }

unfoldable pub with_data : ℕ → List ℕ → DataFrame
with_data stream_id content = record {
  stream_id = stream_id;
  flags = 0;
  content = content;
  padding_len = none;
}

unfoldable pub is_set : DataFrame → DataFlag → Bool
is_set f flag = has_flag f.flags (bitmask flag)

unfoldable pub is_padded : DataFrame → Bool
unfolding is_set
is_padded f = is_set f padded

unfoldable pub is_end_of_stream : DataFrame → Bool
unfolding is_set
is_end_of_stream f = is_set f end_stream

unfoldable pub set_flag : DataFrame → DataFlag → DataFrame
set_flag f flag = record f { flags = with_flag f.flags (bitmask flag) }

unfoldable pub set_padding : DataFrame → ℕ → DataFrame
unfolding set_flag
set_padding f pad_len = record (set_flag f padded) { padding_len = some pad_len }

-- The sum and the casts wrap at 2 ^ 32.
unfoldable pub payload_len : DataFrame → ℕ
unfolding is_padded
payload_len f =
    if is_padded f
    then (1 + length f.content % 2 ^ 32 + unwrap_or f.padding_len 0) % 2 ^ 32
    else length f.content % 2 ^ 32

unfoldable pub parse_payload : List ℕ → Bool → Exec (Option (List ℕ × Option ℕ))
parse_payload payload true = do
  parsed ← parse_padded_payload payload
  value (elim parsed [ none ↦ none | some (content, pad_len) ↦ some (content, some pad_len) ])
parse_payload payload false = value (some (payload, none))

unfoldable pub from_raw : RawFrame → Exec (Option DataFrame)
unfolding parse_payload
from_raw raw_frame = do
  (len, frame_type, flags, stream_id) ← Raw.header raw_frame
  payload ← Raw.payload raw_frame
  let parsed = parse_payload payload (has_flag flags (bitmask padded))
  if not (frame_type == 0x0)
      then value none
      else (if not (len == length payload)
          then value none
          else (if stream_id == 0x0
              then value none
              else (parsed >>= λ r. value (elim r [
                | none ↦ none
                | some (content, padding_len) ↦ some (record {
                  stream_id = stream_id;
                  flags = flags;
                  content = content;
                  padding_len = padding_len;
                })
              ]))))

unfoldable pub get_stream_id : DataFrame → ℕ
get_stream_id f = f.stream_id

unfoldable pub get_header : DataFrame → FrameHeader
get_header f = (payload_len f, 0x0, f.flags, f.stream_id)

unfoldable pub serialize_into : DataFrame → Cursor → Exec Cursor
unfolding get_header is_padded
serialize_into f b =
    let b' = write_header (get_header f) b in
    value (
      if is_padded f
      then (let pad_len = unwrap_or f.padding_len 0 in
          write_padding pad_len (write_all f.content (write_all (pad_len ∷ []) b')))
      else write_all f.content b')
