-- ===== src/Client/Names.antt =====
-- client/simple.rs and client/async.rs: the names of the meta-headers, and two methods.
use solicit.Base.{ℕ, List, [], ◌∷◌}

abbrev pub method_name : List ℕ
method_name = b':' ∷ b'm' ∷ b'e' ∷ b't' ∷ b'h' ∷ b'o' ∷ b'd' ∷ []

abbrev pub path_name : List ℕ
path_name = b':' ∷ b'p' ∷ b'a' ∷ b't' ∷ b'h' ∷ []

abbrev pub authority_name : List ℕ
authority_name = b':' ∷ b'a' ∷ b'u' ∷ b't' ∷ b'h' ∷ b'o' ∷ b'r' ∷ b'i' ∷ b't' ∷ b'y' ∷ []

abbrev pub scheme_name : List ℕ
scheme_name = b':' ∷ b's' ∷ b'c' ∷ b'h' ∷ b'e' ∷ b'm' ∷ b'e' ∷ []

abbrev pub get_method : List ℕ
get_method = b'G' ∷ b'E' ∷ b'T' ∷ []

abbrev pub post_method : List ℕ
post_method = b'P' ∷ b'O' ∷ b'S' ∷ b'T' ∷ []
