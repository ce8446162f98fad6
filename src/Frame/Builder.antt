-- ===== src/Frame/Builder.antt =====
-- http/frame/builder.rs: the writer of serialized frames. The one `FrameBuilder` of the library is
-- `io::Cursor<Vec<u8>>`, whose writes never fail, so each method returns the cursor after it.
use solicit.Base.{ℕ, zero, suc, ◌+◌, ◌-◌, List, [], ◌∷◌, ◌++◌, length, take, drop, replicate, octet}
use solicit.Frame.Header.{FrameHeader, pack_header}

-- The vector and the position of `io::Cursor<Vec<u8>>`.
pub record Cursor : Type 0 where
  pub buffer : List ℕ
  pub position : ℕ

-- `write_all` of the standard library: fills up to the position by zeros, overwrites, extends.
unfoldable pub write_all : List ℕ → Cursor → Cursor
write_all bytes c = record {
  buffer =
      take c.position c.buffer
      ++ (replicate (c.position - length c.buffer) 0
          ++ (bytes ++ drop (c.position + length bytes) c.buffer));
  position = c.position + length bytes;
}

-- `seek(SeekFrom::Start(p))`
abbrev pub seek_start : ℕ → Cursor → Cursor
seek_start p c = record c { position = p }

unfoldable pub write_header : FrameHeader → Cursor → Cursor
write_header header c = write_all (pack_header header) c

unfoldable pub overwrite_header : FrameHeader → Cursor → Cursor
unfolding write_header
overwrite_header header c =
    let current = c.position in seek_start current (write_header header (seek_start 0 c))

-- `io::copy` of what is left in the reader, with the number of bytes copied.
unfoldable pub copy_bytes_from : List ℕ → Cursor → ℕ × Cursor
copy_bytes_from provider c = (length provider, write_all provider c)

unfoldable pub write_padding : ℕ → Cursor → Cursor
write_padding zero c = c
write_padding (suc n) c = write_padding n (write_all (0 ∷ []) c)

unfoldable pub write_u32 : ℕ → Cursor → Cursor
write_u32 num c = write_all (octet num 24 ∷ octet num 16 ∷ octet num 8 ∷ octet num 0 ∷ []) c
