-- ===== src/Async/Service/Chans.antt =====
-- client/async.rs: the channels for the responses, next to the streams that they belong to.
use solicit.Base.{
  ℕ, suc, ◌+◌, ◌≤◌, ◌<◌, ◌≡◌, refl, sym, arith, List, [], ◌∷◌, ◌++◌, Option, none, some, ◌==◌,
  if◌then◌else◌, length, map, Bool-cases, inl, inr, ==_iff, ==_refl,
}
use solicit.Session.Stream.{DefaultStream}
use solicit.Session.State.{lookup, insert, remove, update}
use solicit.Session.State.Maps.{Distinct, AllKeys}
use solicit.Session.State.Labels.{labels}

-- Streams with these identifiers, each with its identifier noted.
abbrev pub own : List (ℕ × ℕ) → List (ℕ × Option ℕ)
own [] = []
own ((id, tx) ∷ m) = (id, some id) ∷ own m

abbrev pub note : ℕ → DefaultStream → DefaultStream
note id s = record s { stream_id = some id }

abbrev Map : Type 0
Map = List (ℕ × DefaultStream)

pub remove-own :
    (k : ℕ) (m : Map) (c : List (ℕ × ℕ)) → labels m ≡ own c → labels (remove k m) ≡ own (remove k c)
unfolding remove
remove-own k [] [] h = refl
remove-own k [] (x ∷ c) h = absurd cc
remove-own k (e ∷ m) [] h = absurd cc
remove-own k ((i, s) ∷ m) ((j, tx) ∷ c) h =
    let key : i ≡ j = cc in
    let noted : s.stream_id ≡ some j = cc in
    let rest : labels m ≡ own c = cc in
    elim (Bool-cases (j == k)) [
      | inl e ↦ rw (key, e) (remove-own k m c rest)
      | inr e ↦ rw (key, e, noted, remove-own k m c rest) refl
    ]

pub insert-own :
    (k tx : ℕ) (s : DefaultStream) (m : Map) (c : List (ℕ × ℕ))
    → lookup k c ≡ none
    → labels m ≡ own c
    → labels (update k (note k) (insert k s m)) ≡ own (insert k tx c)
unfolding insert update lookup
insert-own k tx s [] [] absent h = rw (==_refl k) refl
insert-own k tx s [] (x ∷ c) absent h = absurd cc
insert-own k tx s (e ∷ m) [] absent h = absurd cc
insert-own k tx s ((i, s') ∷ m) ((j, tx') ∷ c) absent h =
    let key : i ≡ j = cc in
    let noted : s'.stream_id ≡ some j = cc in
    let rest : labels m ≡ own c = cc in
    elim (Bool-cases (j == k)) [
      | inl e ↦ absurd (ground arith)
      | inr e ↦ rw (key, e) (rw (e, noted, insert-own k tx s m c (ground arith) rest) refl)
    ]

pub lookup-own :
    (k : ℕ) (s : DefaultStream) (m : Map) (c : List (ℕ × ℕ))
    → labels m ≡ own c
    → lookup k m ≡ some s
    → (s.stream_id ≡ some k) × ((tx : ℕ) × (lookup k c ≡ some tx))
unfolding lookup
lookup-own k s [] [] h found = absurd cc
lookup-own k s [] (x ∷ c) h found = absurd cc
lookup-own k s (e ∷ m) [] h found = absurd cc
lookup-own k s ((i, s') ∷ m) ((j, tx') ∷ c) h found =
    let key : i ≡ j = cc in
    let noted : s'.stream_id ≡ some j = cc in
    let rest : labels m ≡ own c = cc in
    elim (Bool-cases (j == k)) [
      | inl e ↦
          let one : s' ≡ s = ground arith in
          let same : j ≡ k = (==_iff j k).0 e in rw e (rw (sym one, noted, same) refl, (tx', refl))
      | inr e ↦ rw e (lookup-own k s m c rest (ground arith))
    ]

module _ {V : Type 0} where
  pub length-insert :
      (k : ℕ) (v : V) (m : List (ℕ × V))
      → lookup k m ≡ none
      → length (insert k v m) ≡ suc (length m)
  unfolding lookup insert
  length-insert k v [] h = refl
  length-insert k v ((j, w) ∷ m) h = ground (arith, length-insert k v m)

  remove_absent : (k : ℕ) (m : List (ℕ × V)) → lookup k m ≡ none → remove k m ≡ m
  unfolding lookup remove
  remove_absent k [] h = refl
  remove_absent k ((j, w) ∷ m) h = ground (arith, remove_absent k m)

  pub length-remove :
      (k : ℕ) (v : V) (m : List (ℕ × V))
      → Distinct m
      → lookup k m ≡ some v
      → suc (length (remove k m)) ≡ length m
  unfolding lookup remove
  length-remove k v [] d h = absurd cc
  length-remove k v ((j, w) ∷ m) d h = ground (arith, length-remove k v m, remove_absent k m)

  pub lookup-above :
      (next k : ℕ) (m : List (ℕ × V)) → AllKeys (λ j. j < next) m → next ≤ k → lookup k m ≡ none
  unfolding lookup
  lookup-above next k [] h le = refl
  lookup-above next k ((j, w) ∷ m) h le = ground (arith, lookup-above next k m)

  pub insert-AllKeys :
      (P : ℕ → Type 0) (k : ℕ) (v : V) (m : List (ℕ × V))
      → P k
      → AllKeys P m
      → AllKeys P (insert k v m)
  unfolding insert
  insert-AllKeys P k v [] p h = (p, tt)
  insert-AllKeys P k v ((j, w) ∷ m) p h = ground (arith, insert-AllKeys P k v m)

  pub remove-AllKeys :
      (P : ℕ → Type 0) (k : ℕ) (m : List (ℕ × V)) → AllKeys P m → AllKeys P (remove k m)
  unfolding remove
  remove-AllKeys P k [] h = tt
  remove-AllKeys P k ((j, w) ∷ m) h = ground (arith, remove-AllKeys P k m)

  pub AllKeys-weaken :
      (P Q : ℕ → Type 0) (m : List (ℕ × V)) → ((j : ℕ) → P j → Q j) → AllKeys P m → AllKeys Q m
  AllKeys-weaken P Q [] f h = tt
  AllKeys-weaken P Q ((j, w) ∷ m) f h = (f j h.0, AllKeys-weaken P Q m f h.1)

-- How often a number stands in a list.
abbrev pub count : ℕ → List ℕ → ℕ
count x [] = 0
count x (y ∷ ys) = if y == x then suc (count x ys) else count x ys

abbrev pub txs : List (ℕ × ℕ) → List ℕ
txs c = map (λ e. e.1) c

pub count-append : (x : ℕ) (ys zs : List ℕ) → count x (ys ++ zs) ≡ count x ys + count x zs
count-append x [] zs = omega arith
count-append x (y ∷ ys) zs = ground (arith, count-append x ys zs)

pub count-insert :
    (x k tx : ℕ) (c : List (ℕ × ℕ))
    → lookup k c ≡ none
    → count x (txs (insert k tx c)) ≡ count x (tx ∷ txs c)
unfolding lookup insert
count-insert x k tx [] h = refl
count-insert x k tx ((j, w) ∷ c) h = ground (arith, count-insert x k tx c)

pub count-remove :
    (x k tx : ℕ) (c : List (ℕ × ℕ))
    → Distinct c
    → lookup k c ≡ some tx
    → count x (tx ∷ txs (remove k c)) ≡ count x (txs c)
unfolding lookup remove
count-remove x k tx [] d h = absurd cc
count-remove x k tx ((j, w) ∷ c) d h = ground (arith, count-remove x k tx c, remove_absent k c)
