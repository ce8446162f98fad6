-- ===== src/Frame/Header.antt =====
-- http/frame/mod.rs: the 9-octet frame header. A byte buffer is a list of numbers.
use solicit.Base.{
  ℕ, ◌+◌, List, [], ◌∷◌, Exec, value, ◌>>=◌, index, slice_from, octet, join_3, join_4,
  clear_top_bit,
}

-- `unpack_octets_4!(buf, offset, u32)`
unfoldable pub unpack_octets_4 : List ℕ → ℕ → Exec ℕ
unpack_octets_4 buf offset = do
  a ← index buf (offset + 0)
  b ← index buf (offset + 1)
  c ← index buf (offset + 2)
  d ← index buf (offset + 3)
  value (join_4 a b c d)

unfoldable pub parse_stream_id : List ℕ → Exec ℕ
unfolding unpack_octets_4
parse_stream_id buf = do unpacked ← unpack_octets_4 buf 0; value (clear_top_bit unpacked)

abbrev pub frame_header_len : ℕ
frame_header_len = 9

-- `(length, frame_type, flags, stream_id)`
abbrev pub FrameHeader : Type 0
FrameHeader = ℕ × ℕ × ℕ × ℕ

unfoldable pub unpack_header : List ℕ → Exec FrameHeader
unfolding parse_stream_id
unpack_header header = do
  a ← index header 0
  b ← index header 1
  c ← index header 2
  frame_type ← index header 3
  flags ← index header 4
  rest ← slice_from header 5
  stream_id ← parse_stream_id rest
  value (join_3 a b c, frame_type, flags, stream_id)

unfoldable pub pack_header : FrameHeader → List ℕ
pack_header (length, frame_type, flags, stream_id) =
    octet length 16
    ∷ octet length 8
    ∷ octet length 0
    ∷ frame_type
    ∷ flags
    ∷ octet stream_id 24
    ∷ octet stream_id 16
    ∷ octet stream_id 8
    ∷ octet stream_id 0
    ∷ []
