-- ===== src/SimpleServer/Requests.antt =====
-- server/mod.rs: `handle_requests` runs the handler once for each stream whose remote end is closed.
use solicit.Base.{
  ℕ, ◌≡◌, ◌≢◌, refl, arith, inl, inr, true, List, [], ◌∷◌, map, none, some, ◌==◌, if◌then◌else◌,
  Bool-cases, Option-cases, value,
}
use solicit.Http.Response.{Response}
use solicit.Session.Stream.{DefaultStream, default_stream, remote_closed, is_closed_remote}
use solicit.Session.State.{lookup}
use solicit.Session.State.Closed.{contains}
use solicit.Priority.Flush.{Flushing}
use solicit.SimpleServer.{ServerRequest, run_all}
use solicit.SimpleServer.Received.{HasHeaders}

-- The streams whose remote end is closed.
abbrev pub remote_ids : List (ℕ × DefaultStream) → List ℕ
remote_ids [] = []
remote_ids ((i, s) ∷ m) = if remote_closed s.state then i ∷ remote_ids m else remote_ids m

pub contains-remote_ids :
    (j : ℕ) (x : DefaultStream) (m : List (ℕ × DefaultStream))
    → lookup j m ≡ some x
    → remote_closed x.state ≡ true
    → contains j (remote_ids m) ≡ true
unfolding lookup
contains-remote_ids j x [] found shut = absurd cc
contains-remote_ids j x ((i, s) ∷ m) found shut = elim (Bool-cases (i == j)) [
  | inl e ↦ let same : s ≡ x = ground arith in rw (same, shut, e) refl
  | inr e ↦
      let rest : contains j (remote_ids m) ≡ true = contains-remote_ids j x m (ground arith) shut in
      ground arith
]

pub lookup-remote_ids :
    (j : ℕ) (m : List (ℕ × DefaultStream)) → contains j (remote_ids m) ≡ true → lookup j m ≢ none
unfolding lookup
lookup-remote_ids j [] there missing = cc
lookup-remote_ids j ((i, s) ∷ m) there missing = ground (arith, lookup-remote_ids j m)

module _ {H : Type 0} (run_handler : ServerRequest → H → Response × H)
    (responds : (r : ServerRequest) (h : H) → (run_handler r h).0.stream_id ≡ r.stream_id) where
  -- The responses are for the streams whose remote end is closed, in their order.
  pub run_all_total :
      (m : List (ℕ × DefaultStream)) (h : H)
      → Flushing HasHeaders m
      → (rs : List Response) × (h' : H) × (run_all run_handler m h ≡ value (rs, h'))
        × (map (λ r. r.stream_id) rs ≡ remote_ids m)
  unfolding run_all is_closed_remote
  run_all_total [] h f = ([], h, refl, refl)
  run_all_total ((i, s) ∷ m) h ((within, p), f) = elim (Bool-cases (remote_closed s.state)) [
    | inr e ↦ let (rs, h', done, same) = run_all_total m h f in (rs, h', rw e done, rw e same)
    | inl e ↦ elim (Option-cases s.headers) [
      | inl missing ↦ absurd (p missing)
      | inr (hs, has) ↦
          let request : ServerRequest = record { stream_id = i; headers = hs; body = s.body } in
          let (rs, h', done, same) = run_all_total m (run_handler request h).1 f in
          (
            (run_handler request h).0 ∷ rs,
            h',
            rw (e, has, done) refl,
            rw (e, same, responds request h) refl,
          )
    ]
  ]
