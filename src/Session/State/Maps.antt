-- ===== src/Session/State/Maps.antt =====
-- http/session.rs: the laws of the map from identifiers to streams.
use solicit.Base.{ℕ, ◌≡◌, refl, arith, List, [], ◌∷◌, Option, none, some, ◌==◌, if◌then◌else◌}
use solicit.Session.State.{lookup, insert, remove, update}

module _ {ℓ} {V : Type ℓ} where
  pub lookup-insert :
      (new id : ℕ) (entry : V) (table : List (ℕ × V))
      → lookup id (insert new entry table) ≡ (if new == id then some entry else lookup id table)
  unfolding lookup insert
  lookup-insert new id entry [] = refl
  lookup-insert new id entry ((i, other) ∷ rest) = ground (arith, lookup-insert new id entry rest)

  pub lookup-remove :
      (k j : ℕ) (m : List (ℕ × V)) → lookup j (remove k m) ≡ (if k == j then none else lookup j m)
  unfolding lookup remove
  lookup-remove k j [] = ground arith
  lookup-remove k j ((i, w) ∷ m) = ground (arith, lookup-remove k j m)

  abbrev pub map_option : (V → V) → Option V → Option V
  map_option f none = none
  map_option f (some v) = some (f v)

  pub lookup-update :
      (k j : ℕ) (f : V → V) (m : List (ℕ × V))
      → lookup j (update k f m) ≡ (if k == j then map_option f (lookup j m) else lookup j m)
  unfolding lookup update
  lookup-update k j f [] = ground arith
  lookup-update k j f ((i, w) ∷ m) = ground (arith, lookup-update k j f m)

  -- A condition on every key.
  abbrev pub AllKeys {κ} : (ℕ → Type κ) → List (ℕ × V) → Type κ
  AllKeys P [] = Unit {κ}
  AllKeys P ((j, v) ∷ m) = P j × AllKeys P m

  -- No key stands twice.
  abbrev pub Distinct : List (ℕ × V) → Type ℓ
  Distinct [] = Unit {ℓ}
  Distinct ((j, v) ∷ m) = (lookup j m ≡ none) × Distinct m

  pub insert-Distinct : (k : ℕ) (v : V) (m : List (ℕ × V)) → Distinct m → Distinct (insert k v m)
  unfolding lookup insert
  insert-Distinct k v [] h = (refl, tt)
  insert-Distinct k v ((j, w) ∷ m) h =
      ground (arith, insert-Distinct k v m h.1, lookup-insert k j v m)

  pub remove-Distinct : (k : ℕ) (m : List (ℕ × V)) → Distinct m → Distinct (remove k m)
  unfolding lookup remove
  remove-Distinct k [] h = tt
  remove-Distinct k ((j, w) ∷ m) h = ground (arith, remove-Distinct k m h.1, lookup-remove k j m)

  pub update-Distinct :
      (k : ℕ) (f : V → V) (m : List (ℕ × V)) → Distinct m → Distinct (update k f m)
  unfolding lookup update
  update-Distinct k f [] h = tt
  update-Distinct k f ((j, w) ∷ m) h =
      ground (arith, update-Distinct k f m h.1, lookup-update k j f m)
