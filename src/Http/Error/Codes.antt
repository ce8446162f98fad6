-- ===== src/Http/Error/Codes.antt =====
-- http/mod.rs: error codes and their numbers.
use solicit.Base.{leb, if◌then◌else◌, ℕ, ◌≡◌, refl, arith, if◌then◌else◌}
use solicit.Http.Error.{ErrorCode, no_error, from_u32, into_u32}

-- A code that is sent as a number is read back as the same code.
pub from_u32-into_u32 : (c : ErrorCode) → from_u32 (into_u32 c) ≡ c
unfolding from_u32 into_u32
from_u32-into_u32 no_error = refl
from_u32-into_u32 _ = refl

-- A number that is read as an error code and written again stays the same up to 13, the last known
-- code, and becomes 2, that of INTERNAL_ERROR, above.
into_u32-from_u32 : (n : ℕ) → into_u32 (from_u32 n) ≡ (if leb n 13 then n else 0x2)
unfolding from_u32 into_u32
into_u32-from_u32 n = ground arith
