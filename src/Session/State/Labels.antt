-- ===== src/Session/State/Labels.antt =====
-- http/session.rs: the identifiers of in-memory streams, in the map and in the streams themselves.
use solicit.Base.{ℕ, ◌≡◌, refl, List, [], ◌∷◌, Option, ◌==◌, Bool-cases, inl, inr}
use solicit.Session.Stream.{DefaultStream}
use solicit.Session.State.{update}

-- The identifier of every stream, and the one that is noted in it.
abbrev pub labels : List (ℕ × DefaultStream) → List (ℕ × Option ℕ)
labels [] = []
labels ((id, s) ∷ m) = (id, s.stream_id) ∷ labels m

pub labels-update :
    (id : ℕ) (f : DefaultStream → DefaultStream) (m : List (ℕ × DefaultStream))
    → ((s : DefaultStream) → (f s).stream_id ≡ s.stream_id)
    → labels (update id f m) ≡ labels m
unfolding update
labels-update id f [] same = refl
labels-update id f ((i, s) ∷ m) same = elim (Bool-cases (i == id)) [
  | inl e ↦ rw (e, same s, labels-update id f m same) refl
  | inr e ↦ rw (e, labels-update id f m same) refl
]
