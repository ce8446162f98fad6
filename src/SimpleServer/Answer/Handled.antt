-- ===== src/SimpleServer/Answer/Handled.antt =====
-- server/mod.rs: the response of the handler among those for the streams.
use solicit.Base.{
  ℕ, ◌≡◌, refl, sym, ap, ◌∙◌, arith, true, false, inl, inr, ◌⊎◌, List, [], ◌∷◌, Option, none, some,
  ◌==◌, ==_refl, ==_iff, Exec, value, panic, Bool-cases, Option-cases,
}
use solicit.Http.Response.{Header, Response}
use solicit.Session.Stream.{DefaultStream, default_stream, is_closed_remote, remote_closed}
use solicit.Session.State.{lookup}
use solicit.Session.State.Maps.{Distinct}
use solicit.SimpleServer.{ServerRequest, run_all}
use solicit.SimpleServer.Answer.Prepared.{answer_of}

pub Exec-cases : {A : Type 0} (r : Exec A) → ((a : A) × (r ≡ value a)) ⊎ (r ≡ panic)
Exec-cases (value a) = inl (a, refl)
Exec-cases panic = inr refl

-- The request that a stream is.
abbrev pub request_of : ℕ → List Header → DefaultStream → ServerRequest
request_of i hs s = record { stream_id = i; headers = hs; body = s.body }

module _ {H : Type 0} (run_handler : ServerRequest → H → Response × H) where
  -- The handler was not run for the first stream, or its response is the first.
  abbrev First : ℕ → DefaultStream → List (ℕ × DefaultStream) → H → List Response → H → Type 0
  First i s m h rs h' =
      ((remote_closed s.state ≡ false) × (run_all run_handler m h ≡ value (rs, h')))
      ⊎ ((hs : List Header) × (rs1 : List Response) × (s.headers ≡ some hs)
          × (rs ≡ (run_handler (request_of i hs s) h).0 ∷ rs1)
          × (run_all run_handler m (run_handler (request_of i hs s) h).1 ≡ value (rs1, h')))

  run_all-First :
      (i : ℕ) (s : DefaultStream) (m : List (ℕ × DefaultStream)) (h : H) (rs : List Response)
      (h' : H)
      → run_all run_handler ((i, s) ∷ m) h ≡ value (rs, h')
      → First i s m h rs h'
  unfolding run_all is_closed_remote
  run_all-First i s m h rs h' done = elim (Bool-cases (remote_closed s.state)) [
    | inr e ↦
        let rest : run_all run_handler ((i, s) ∷ m) h ≡ run_all run_handler m h = rw e refl in
        inl (e, sym rest ∙ done)
    | inl e ↦ elim (Option-cases s.headers) [
      | inl missing ↦
          let failed : run_all run_handler ((i, s) ∷ m) h ≡ panic = rw (e, missing) refl in
          absurd cc
      | inr (hs, has) ↦
          elim (Exec-cases (run_all run_handler m (run_handler (request_of i hs s) h).1)) [
            | inl ((rs1, h1), others) ↦
                let result : run_all run_handler ((i, s) ∷ m) h
                    ≡ value ((run_handler (request_of i hs s) h).0 ∷ rs1, h1) =
                  rw (e, has, others) refl in
                let r = (run_handler (request_of i hs s) h).0 in
                let same : r ∷ rs1 ≡ rs = cc in
                let end : h1 ≡ h' = cc in
                inr (hs, rs1, has, sym same, others ∙ ap (λ z. value (rs1, z)) end)
            | inr fails ↦
                let failed : run_all run_handler ((i, s) ∷ m) h ≡ panic = rw (e, has, fails) refl in
                absurd cc
          ]
    ]
  ]

  module _ (responds : (r : ServerRequest) (h : H) → (run_handler r h).0.stream_id ≡ r.stream_id)
      (j : ℕ) where
    other_answer :
        (o : Option Response) (r : Response) (rs : List Response)
        → (r.stream_id == j) ≡ false
        → answer_of j (r ∷ rs) o ≡ answer_of j rs o
    other_answer o r rs e = rw e refl

    -- No response is for a stream that is not there.
    answer_of-run_all_missing :
        (m : List (ℕ × DefaultStream)) (h : H) (rs : List Response) (h' : H) (o : Option Response)
        → run_all run_handler m h ≡ value (rs, h')
        → lookup j m ≡ none
        → answer_of j rs o ≡ o
    unfolding run_all lookup
    answer_of-run_all_missing [] h rs h' o done gone =
        let empty : [] ≡ rs = cc in rw (sym empty) refl
    answer_of-run_all_missing ((i, s) ∷ m) h rs h' o done gone =
        let rest : lookup j m ≡ none = ground arith in
        let other : (i == j) ≡ false = ground arith in
        elim (run_all-First i s m h rs h' done) [
          | inl (_, others) ↦ answer_of-run_all_missing m h rs h' o others rest
          | inr (hs, rs1, has, same, others) ↦
              let r = run_handler (request_of i hs s) h in
              rw same (
                other_answer o r.0 rs1 (rw (responds (request_of i hs s) h) other)
                ∙ answer_of-run_all_missing m r.1 rs1 h' o others rest)
        ]

    -- The response for a stream whose remote end is closed is the handler's for the request.
    pub answer_of-run_all :
        (m : List (ℕ × DefaultStream)) (h : H) (rs : List Response) (h' : H) (o : Option Response)
        (y : DefaultStream) (hs : List Header)
        → run_all run_handler m h ≡ value (rs, h')
        → Distinct m
        → lookup j m ≡ some y
        → remote_closed y.state ≡ true
        → y.headers ≡ some hs
        → (h0 : H) × (answer_of j rs o ≡ some (run_handler (request_of j hs y) h0).0)
    unfolding run_all lookup
    answer_of-run_all [] h rs h' o y hs done d found shut has = absurd cc
    answer_of-run_all ((i, s) ∷ m) h rs h' o y hs done (fresh, d) found shut has =
        elim (Bool-cases (i == j)) [
          | inr other ↦
              let rest : lookup j m ≡ some y = ground arith in
              elim (run_all-First i s m h rs h' done) [
                | inl (_, others) ↦ answer_of-run_all m h rs h' o y hs others d rest shut has
                | inr (hs1, rs1, has1, same, others) ↦
                    let r = run_handler (request_of i hs1 s) h in
                    let (h0, found0) =
                      answer_of-run_all m r.1 rs1 h' o y hs others d rest shut has in
                    (
                      h0,
                      rw same (
                          other_answer o r.0 rs1 (rw (responds (request_of i hs1 s) h) other)
                          ∙ found0),
                    )
              ]
          | inl this ↦
              let at : i ≡ j = (==_iff i j).0 this in
              let one : s ≡ y = ground arith in
              elim (run_all-First i s m h rs h' done) [
                | inl (opened, _) ↦
                    let shut_s : remote_closed s.state ≡ true = rw one shut in absurd cc
                | inr (hs1, rs1, has1, same, others) ↦
                    let r = run_handler (request_of i hs1 s) h in
                    let headers : hs1 ≡ hs = cc in
                    let gone : lookup j m ≡ none = rw⁻¹ at fresh in
                    let id : r.0.stream_id ≡ j = responds (request_of i hs1 s) h ∙ at in
                    let first : answer_of j (r.0 ∷ rs1) o ≡ answer_of j rs1 (some r.0) =
                      rw (id, ==_refl j) refl in
                    let stays = answer_of-run_all_missing m r.1 rs1 h' (some r.0) others gone in
                    let same_request : request_of i hs1 s ≡ request_of j hs y =
                      rw (at, headers, one) refl in
                    (h, rw same (first ∙ stays ∙ ap (λ q. some (run_handler q h).0) same_request))
              ]
        ]
