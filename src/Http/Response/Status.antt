-- ===== src/Http/Response/Status.antt =====
-- http/mod.rs: the status code of a response.
use solicit.Base.{
  ℕ, ◌+◌, ◌*◌, ◌/◌, ◌%◌, ◌≤◌, ◌<◌, ◌≡◌, ◌↔◌, ◌-◌, ◌⊎◌, inl, inr, refl, arith, List, [], ◌∷◌, value,
  ltb, ◌||◌, Bool-cases,
}
use solicit.Http.Error.{success, failure, malformed_response}
use solicit.Http.Response.{parse_status_code}

-- The three digits of a number below 1000.
abbrev pub digits : ℕ → List ℕ
digits n = (b'0' + n / 100) ∷ (b'0' + n / 10 % 10) ∷ (b'0' + n % 10) ∷ []

-- Every status code from 100 to 599 is read from its three digits.
pub parse_status_code-digits :
    (n : ℕ) → 100 ≤ n → n < 600 → parse_status_code (digits n) ≡ value (success n)
unfolding parse_status_code
parse_status_code-digits n lo hi = ground arith

status_of_success :
    (buf : List ℕ) (n : ℕ)
    → parse_status_code buf ≡ value (success n)
    → (100 ≤ n) × (n < 600) × (buf ≡ digits n)
unfolding parse_status_code
status_of_success [] n h = cc
status_of_success (a ∷ []) n h = cc
status_of_success (a ∷ b ∷ []) n h = cc
status_of_success (a ∷ b ∷ c ∷ []) n h = ground arith
status_of_success (a ∷ b ∷ c ∷ d ∷ rest) n h = ground arith

-- Parsing succeeds on exactly the three digits of the numbers from 100 to 599, with that number.
pub parse_status_code_iff :
    (buf : List ℕ) (n : ℕ)
    → (parse_status_code buf ≡ value (success n)) ↔ ((100 ≤ n) × (n < 600) × (buf ≡ digits n))
parse_status_code_iff buf n =
    (status_of_success buf n, λ h. rw h.2 (parse_status_code-digits n h.0 h.1))

-- On any other octets it answers with the malformed-response error; it never panics.
pub parse_status_code_total :
    (buf : List ℕ)
    → ((n : ℕ) × (parse_status_code buf ≡ value (success n)))
      ⊎ (parse_status_code buf ≡ value (failure malformed_response))
unfolding parse_status_code
parse_status_code_total [] = inr refl
parse_status_code_total (a ∷ []) = inr refl
parse_status_code_total (a ∷ b ∷ []) = inr refl
parse_status_code_total (a ∷ b ∷ c ∷ []) = elim (Bool-cases (ltb a b'1' || ltb b'5' a)) [
  | inl p ↦ rw p (inr refl)
  | inr p ↦ elim (Bool-cases ((ltb b b'0' || ltb b'9' b) || (ltb c b'0' || ltb b'9' c))) [
    | inl q ↦ rw (p, q) (inr refl)
    | inr q ↦ rw (p, q) (inl (100 * (a - b'0') + 10 * (b - b'0') + 1 * (c - b'0'), refl))
  ]
]
parse_status_code_total (a ∷ b ∷ c ∷ d ∷ rest) = inr (ground arith)
