-- ===== src/Http/Response.antt =====
-- http/mod.rs: headers, responses and their status code.
pub mod Status
pub mod Octets
use solicit.Base.{
  ℕ, ◌+◌, ◌-◌, ◌*◌, Bool, true, false, ◌&&◌, ◌||◌, not, List, [], ◌∷◌, ◌++◌, map, ltb, leb, ◌==◌,
  if◌then◌else◌, Exec, value, ◌>>=◌, index, length,
}
use solicit.Http.Error.{HttpError, HttpResult, success, failure, malformed_response}

-- `OwnedHeader`: a name and a value.
abbrev pub OwnedHeader : Type 0
OwnedHeader = List ℕ × List ℕ

pub record Header : Type 0 where
  pub name : List ℕ
  pub value : List ℕ

unfoldable pub new_header : List ℕ → List ℕ → Header
new_header name val = record { name = name; value = val }

-- Equality of byte slices.
unfoldable pub bytes_eq : List ℕ → List ℕ → Bool
bytes_eq [] [] = true
bytes_eq [] (y ∷ ys) = false
bytes_eq (x ∷ xs) [] = false
bytes_eq (x ∷ xs) (y ∷ ys) = x == y && bytes_eq xs ys

-- `impl PartialEq<Header> for OwnedHeader`, and the other way round.
unfoldable pub header_eq : OwnedHeader → Header → Bool
header_eq owned other = bytes_eq owned.0 other.name && bytes_eq owned.1 other.value

pub data HttpScheme : Type 0 where
  http https : HttpScheme

unfoldable pub as_bytes : HttpScheme → List ℕ
as_bytes http = b'h' ∷ b't' ∷ b't' ∷ b'p' ∷ []
as_bytes https = b'h' ∷ b't' ∷ b't' ∷ b'p' ∷ b's' ∷ []

pub record Response : Type 0 where
  pub stream_id : ℕ
  pub headers : List Header
  pub body : List ℕ

unfoldable pub new_response : ℕ → List OwnedHeader → List ℕ → Response
unfolding new_header
new_response stream_id headers body = record {
  stream_id = stream_id;
  headers = map (λ h. new_header h.0 h.1) headers;
  body = body;
}

abbrev pub status_name : List ℕ
status_name = b':' ∷ b's' ∷ b't' ∷ b'a' ∷ b't' ∷ b'u' ∷ b's' ∷ []

-- The digits are octets above `b'0'` where they are subtracted.
unfoldable pub parse_status_code : List ℕ → Exec (HttpResult ℕ)
parse_status_code buf = if not (length buf == 3) then value (failure malformed_response) else (do
  a ← index buf 0
  b ← index buf 1
  c ← index buf 2
  value (
      if ltb a b'1' || ltb b'5' a
      then failure malformed_response
      else (if (ltb b b'0' || ltb b'9' b) || (ltb c b'0' || ltb b'9' c)
          then failure malformed_response
          else success (100 * (a - b'0') + 10 * (b - b'0') + 1 * (c - b'0')))))

unfoldable pub status_code : Response → Exec (HttpResult ℕ)
unfolding parse_status_code bytes_eq
status_code r =
    if ltb (length r.headers) 1
    then value (failure malformed_response)
    else (index r.headers 0 >>= λ first.
        if not (bytes_eq first.name status_name)
        then value (failure malformed_response)
        else parse_status_code first.value)
