-- ===== src/Frame/Raw/Parse.antt =====
-- http/frame/mod.rs: what `RawFrame::parse` takes from the front of a buffer.
use solicit.Base.{
  ℕ, zero, suc, ◌+◌, ◌≤◌, ◌<◌, ◌≡◌, refl, sym, ap, arith, inl, inr, ◌⊎◌, List, [], ◌∷◌, ◌++◌,
  Option, none, some, Exec, value, panic, length, take, drop, length-take, length-append,
  take-append, length-drop, take-append-drop, ltb, ltb→lt, le→not_ltb, Bool-cases,
}
use solicit.Frame.Header.{FrameHeader, unpack_header, pack_header}
use solicit.Frame.Wire.{wire, IsHeader, length-wire, unpack_header-pack_header}
use solicit.Frame.Raw.{RawFrame, raw_from, parse, header, len}

-- Nine octets always unpack.
unpack_header_total :
    (buf : List ℕ) → 9 ≤ length buf → (h : FrameHeader) × (unpack_header (take 9 buf) ≡ value h)
unfolding unpack_header
unpack_header_total (a ∷ b ∷ c ∷ d ∷ e ∷ f ∷ g ∷ x ∷ y ∷ rest) h = (_, refl)
unpack_header_total [] h = absurd (omega arith)
unpack_header_total (_ ∷ []) h = absurd (omega arith)
unpack_header_total (_ ∷ _ ∷ []) h = absurd (omega arith)
unpack_header_total (_ ∷ _ ∷ _ ∷ []) h = absurd (omega arith)
unpack_header_total (_ ∷ _ ∷ _ ∷ _ ∷ []) h = absurd (omega arith)
unpack_header_total (_ ∷ _ ∷ _ ∷ _ ∷ _ ∷ []) h = absurd (omega arith)
unpack_header_total (_ ∷ _ ∷ _ ∷ _ ∷ _ ∷ _ ∷ []) h = absurd (omega arith)
unpack_header_total (_ ∷ _ ∷ _ ∷ _ ∷ _ ∷ _ ∷ _ ∷ []) h = absurd (omega arith)
unpack_header_total (_ ∷ _ ∷ _ ∷ _ ∷ _ ∷ _ ∷ _ ∷ _ ∷ []) h = absurd (omega arith)

take-take : {A : Type 0} (m n : ℕ) (xs : List A) → m ≤ n → take m (take n xs) ≡ take m xs
take-take zero n xs h = refl
take-take (suc m) zero xs h = absurd (omega arith)
take-take (suc m) (suc n) [] h = refl
take-take (suc m) (suc n) (x ∷ xs) h = ap (◌∷◌ x) (take-take m n xs (omega arith))

-- The result that the buffer asks for: no frame if the header or the payload is incomplete, else the
-- octets of exactly one frame, which a remainder may follow.
abbrev pub IsParsed : List ℕ → Exec (Option RawFrame) → Type 0
IsParsed buf panic = ⊥
IsParsed buf (value none) =
    (length buf < 9)
    ⊎ ((h : FrameHeader) × (unpack_header (take 9 buf) ≡ value h) × (length buf < 9 + h.0))
IsParsed buf (value (some raw)) =
    ((h : FrameHeader) × (header raw ≡ value h) × (len raw ≡ 9 + h.0))
    × ((rest : List ℕ) × (buf ≡ raw.raw_content ++ rest))

-- `parse` never panics, and its result is the one that the buffer asks for.
pub parse-IsParsed : (buf : List ℕ) → IsParsed buf (parse buf)
unfolding parse header len
parse-IsParsed buf = elim (Bool-cases (ltb (length buf) 9)) [
  | inl short ↦ rw short (inl (ltb→lt _ _ short))
  | inr long ↦
      let nine : 9 ≤ length buf = ground arith in
      let (h, unpacked) = unpack_header_total buf nine in
      let size = length-drop 9 buf in
      rw (long, unpacked)
        (elim (Bool-cases (ltb (length (drop 9 buf)) h.0)) [
          | inl cut ↦ rw cut (inr (h, unpacked, omega (arith, size, ltb→lt _ _ cut)))
          | inr whole ↦
              let fits : 9 + h.0 ≤ length buf = ground (arith, size) in
              let raw_size = length-take (9 + h.0) buf in
              rw (whole, le→not_ltb (length buf) (9 + h.0) fits)
                (
                  (
                    h,
                    rw
                        (
                          le→not_ltb (length (take (9 + h.0) buf)) 9 (omega (arith, raw_size)),
                          take-take 9 (9 + h.0) buf (omega arith),
                        )
                        unpacked,
                    omega (arith, raw_size),
                  ),
                  (drop (9 + h.0) buf, sym (take-append-drop (9 + h.0) buf)),
                )
        ])
]

-- A frame in front of other octets is parsed, if its header fits and agrees with its payload.
pub parse-wire :
    (h : FrameHeader) (payload rest : List ℕ)
    → IsHeader h
    → h.0 ≡ length payload
    → parse (wire h payload ++ rest) ≡ value (some (raw_from (wire h payload)))
unfolding parse
parse-wire h payload rest fits len =
    let size = length-wire h payload in
    let all = length-append (wire h payload) rest in
    let buf = wire h payload ++ rest in
    let prefix : take 9 buf ≡ pack_header h = unfold pack_header in refl in
    let beyond = length-drop 9 buf in
    rw
      (
        le→not_ltb (length buf) 9 (omega (arith, size, all)),
        prefix,
        unpack_header-pack_header h fits,
        le→not_ltb (length (drop 9 buf)) h.0 (omega (arith, size, all, beyond)),
        le→not_ltb (length buf) (9 + h.0) (omega (arith, size, all)),
        take-append (9 + h.0) (wire h payload) rest (omega (arith, size)),
      )
      refl
