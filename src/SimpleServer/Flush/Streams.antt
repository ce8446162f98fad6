-- ===== src/SimpleServer/Flush/Streams.antt =====
-- server/mod.rs: what the streams of a server keep while they are flushed and removed.
use solicit.Base.{
  OnValue, bind-OnValue, OnValue-any, unwrap, ℕ, ◌+◌, ◌≡◌, ◌≢◌, refl, arith, true, false, inl, inr,
  ◌⊎◌, List, [], ◌∷◌, Option, none, some, length, min, drop, ◌==◌, if◌then◌else◌, Bool-cases,
}
use solicit.Frame.Builder.{Cursor}
use solicit.Session.Stream.{
  DefaultStream, default_stream, default_get_data_chunk, next_chunk, read, remote_closed,
  local_closed, StreamState, fully_closed, is_closed,
}
use solicit.Session.State.{
  SessionState, lookup, remove, remove_all, remove_stream, get_closed, closed_ids,
}
use solicit.Session.State.Maps.{Distinct, remove-Distinct}
use solicit.Session.State.Closed.{closed_at}
use solicit.Priority.Total.{ids}
use solicit.Priority.Flush.{Flushing, Flushed}

-- A stream whose remote end is closed has data to send, be it empty.
abbrev pub IsAnswered : DefaultStream → Type 0
IsAnswered s = remote_closed s.state ≡ true → s.outgoing ≢ none

pub next_chunk-IsAnswered :
    (o : Option Cursor) (buf : List ℕ) (s : DefaultStream)
    → s.outgoing ≡ o
    → IsAnswered s
    → IsAnswered (next_chunk o buf s).0
unfolding next_chunk read
next_chunk-IsAnswered none buf s same h = h
next_chunk-IsAnswered (some d) buf s same h =
    let rest = drop d.position d.buffer in
    elim (Bool-cases (d.position + min (length buf) (length rest) == length d.buffer)) [
      | inl e ↦ rw e (λ r missing. absurd cc)
      | inr e ↦ rw e (λ r missing. absurd cc)
    ]

pub get_data_chunk-IsAnswered :
    (buf : List ℕ) (s : DefaultStream) → IsAnswered s → IsAnswered (default_get_data_chunk buf s).0
unfolding default_get_data_chunk
get_data_chunk-IsAnswered buf s h = elim (Bool-cases (local_closed s.state)) [
  | inl e ↦ rw e h
  | inr e ↦ rw e (next_chunk-IsAnswered s.outgoing buf s refl h)
]

pub ids-lookup :
    (j : ℕ) (m m' : List (ℕ × DefaultStream))
    → ids m' ≡ ids m
    → lookup j m ≡ none
    → lookup j m' ≡ none
unfolding lookup
ids-lookup j m [] same h = refl
ids-lookup j [] (e ∷ m') same h = absurd cc
ids-lookup j ((i, s) ∷ m) ((k, s') ∷ m') same h =
    let key : k ≡ i = cc in let rest : ids m' ≡ ids m = cc in ground (arith, ids-lookup j m m' rest)

pub ids-Distinct : (m m' : List (ℕ × DefaultStream)) → ids m' ≡ ids m → Distinct m → Distinct m'
ids-Distinct m [] same d = tt
ids-Distinct [] (e ∷ m') same d = absurd cc
ids-Distinct ((i, s) ∷ m) ((k, s') ∷ m') same d =
    let key : k ≡ i = cc in
    let rest : ids m' ≡ ids m = cc in
    (rw key (ids-lookup i m m' rest d.0), ids-Distinct m m' rest d.1)

pub found-Flushing :
    (P : DefaultStream → Type 0) (j : ℕ) (x : DefaultStream) (m : List (ℕ × DefaultStream))
    → Flushing P m
    → lookup j m ≡ some x
    → P x
unfolding lookup
found-Flushing P j x [] f h = absurd cc
found-Flushing P j x ((i, s) ∷ m) ((within, p), f) h = elim (Bool-cases (i == j)) [
  | inl e ↦ let same : s ≡ x = ground arith in rw⁻¹ same p
  | inr e ↦ found-Flushing P j x m f (ground arith)
]

pub found-Flushed :
    (j : ℕ) (x : DefaultStream) (m : List (ℕ × DefaultStream))
    → Flushed m
    → lookup j m ≡ some x
    → (local_closed x.state ≡ true) ⊎ (x.outgoing ≡ none)
unfolding lookup
found-Flushed j x [] f h = absurd cc
found-Flushed j x ((i, s) ∷ m) (p, f) h = elim (Bool-cases (i == j)) [
  | inl e ↦ let same : s ≡ x = ground arith in rw⁻¹ same p
  | inr e ↦ found-Flushed j x m f (ground arith)
]

pub both_closed :
    (state : StreamState)
    → remote_closed state ≡ true
    → local_closed state ≡ true
    → fully_closed state ≡ true
both_closed state r l = ground arith

-- A stream that `get_closed` leaves is not closed.
pub left_found :
    (o : Option DefaultStream) (x : DefaultStream)
    → (if closed_at o then none else o) ≡ some x
    → (o ≡ some x) × (fully_closed x.state ≡ false)
unfolding is_closed
left_found none x h = absurd cc
left_found (some s) x h = ground arith

-- Streams that are removed are lost to no property of the streams.
remove-Flushing :
    (P : DefaultStream → Type 0) (i : ℕ) (m : List (ℕ × DefaultStream))
    → Flushing P m
    → Flushing P (remove i m)
unfolding remove
remove-Flushing P i [] f = tt
remove-Flushing P i ((j, s) ∷ m) (p, f) = elim (Bool-cases (j == i)) [
  | inl e ↦ rw e (remove-Flushing P i m f)
  | inr e ↦ rw e (p, remove-Flushing P i m f)
]

remove_all-Keeps :
    (P : DefaultStream → Type 0) (is : List ℕ) (st : SessionState DefaultStream)
    → Flushing P st.streams × Distinct st.streams
    → OnValue (λ p. Flushing P p.0.streams × Distinct p.0.streams) (remove_all is st)
unfolding remove_all remove_stream
remove_all-Keeps P [] st h = h
remove_all-Keeps P (i ∷ is) st (f, d) =
    let st' = record st { streams = remove i st.streams } in
    bind-OnValue (λ a. Unit {0}) _ (unwrap (lookup i st.streams)) _
      (OnValue-any (unwrap (lookup i st.streams)))
      λ s u.
        bind-OnValue (λ p. Flushing P p.0.streams × Distinct p.0.streams) _ (remove_all is st') _
          (remove_all-Keeps P is st'
            (remove-Flushing P i st.streams f, remove-Distinct i st.streams d))
          λ p h. h

pub get_closed-Keeps :
    (P : DefaultStream → Type 0) (st : SessionState DefaultStream)
    → Flushing P st.streams × Distinct st.streams
    → OnValue (λ p. Flushing P p.0.streams × Distinct p.0.streams) (get_closed st)
unfolding get_closed
get_closed-Keeps P st h = remove_all-Keeps P (closed_ids st.streams) st h
