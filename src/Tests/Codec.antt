-- ===== src/Tests/Codec.antt =====
-- A header codec that stands for the `hpack` crate: lengths, then the octets of name and value.
use solicit.Base.{
  ℕ, zero, suc, ◌≡◌, refl, List, [], ◌∷◌, ◌++◌, length, take, drop, take-append, drop-append,
}
use solicit.Http.Response.{OwnedHeader}
use solicit.Connection.Defs.{Hpack, DecodeResult, decoded, undecodable}
use solicit.Connection.Handle.Block.{IsCodec}

unfoldable pub encode_all : List OwnedHeader → List ℕ
encode_all [] = []
encode_all ((n, v) ∷ hs) = length n ∷ length v ∷ (n ++ (v ++ encode_all hs))

unfoldable pub decode_all : ℕ → List ℕ → List OwnedHeader
decode_all zero xs = []
decode_all (suc k) [] = []
decode_all (suc k) (n ∷ []) = []
decode_all (suc k) (n ∷ v ∷ xs) =
    (take n xs, take v (drop n xs)) ∷ decode_all k (drop v (drop n xs))

pub decode_all-encode_all : (hs : List OwnedHeader) → decode_all (length hs) (encode_all hs) ≡ hs
unfolding decode_all encode_all
decode_all-encode_all [] = refl
decode_all-encode_all ((n, v) ∷ hs) = rw (
  take-append (length n) n (v ++ encode_all hs) refl,
  drop-append (length n) n (v ++ encode_all hs) refl,
  take-append (length v) v (encode_all hs) refl,
  drop-append (length v) v (encode_all hs) refl,
  decode_all-encode_all hs,
)

abbrev decode_block : List ℕ → DecodeResult
decode_block [] = undecodable 0
decode_block (k ∷ xs) = decoded (decode_all k xs)

abbrev pub plain : Hpack
plain = record {
  Encoder = Unit {0};
  Decoder = Unit {0};
  new_encoder = tt;
  new_decoder = tt;
  encode = λ e hs. (length hs ∷ encode_all hs, e);
  decode = λ d block. (decode_block block, d);
}

abbrev pub plain-IsCodec : IsCodec plain
plain-IsCodec = record {
  InStep = λ e d. Unit {0};
  new_in_step = tt;
  decode-encode = λ e d hs h. (rw (decode_all-encode_all hs) refl, tt);
}
