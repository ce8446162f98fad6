-- ===== src/Session/State/Ids.antt =====
-- http/session.rs: the identifiers of a session's streams.
use solicit.Base.{
  ◌⊎◌, inl, inr, ℕ, ◌+◌, ◌%◌, ◌^◌, ◌≤◌, ◌<◌, ◌≡◌, ◌≢◌, ◌↔◌, ◌∙◌, refl, arith, true, false, none,
  some, ◌==◌, if◌then◌else◌, Bool-cases,
}
use solicit.Session.State.{
  Parity, even, odd, parity_of, same_parity, lookup, SessionState, client_state, server_state,
  validate_incoming_parity, insert_outgoing, insert_incoming, get_stream_ref, change_stream,
  remove_stream,
}
use solicit.Session.State.Maps.{
  lookup-insert, lookup-remove, lookup-update, Distinct, insert-Distinct, remove-Distinct,
  update-Distinct,
}

-- The keys are distinct, the next identifier has the parity of the session's own streams, and no
-- stream of that parity has an identifier at or above it.
pub record Inv {S : Type 0} (st : SessionState S) : Type 0 where
  pub distinct : Distinct st.streams
  pub parity : parity_of st.next_stream_id ≡ st.outgoing_parity
  pub fresh :
      (j : ℕ)
      → parity_of j ≡ st.outgoing_parity
      → st.next_stream_id ≤ j
      → lookup j st.streams ≡ none

parity_of-add_two : (n : ℕ) → parity_of (n + 2) ≡ parity_of n
unfolding parity_of
parity_of-add_two n = ground arith

same_parity_iff : (p q : Parity) → (same_parity p q ≡ true) ↔ (p ≡ q)
same_parity_iff even even = (λ e. refl, λ e. refl)
same_parity_iff even odd = (λ e. cc, λ e. cc)
same_parity_iff odd even = (λ e. cc, λ e. cc)
same_parity_iff odd odd = (λ e. refl, λ e. refl)

module _ {S : Type 0} where
  pub client_state-Inv : Inv (client_state S)
  unfolding client_state parity_of lookup
  client_state-Inv = record { distinct = tt; parity = refl; fresh = λ j p h. refl }

  pub server_state-Inv : Inv (server_state S)
  unfolding server_state parity_of lookup
  server_state-Inv = record { distinct = tt; parity = refl; fresh = λ j p h. refl }

  -- If the invariant holds, `insert_outgoing` gives an identifier that had no stream and has the
  -- parity of the session's own streams. The stream is found under it, and every other stream stays.
  pub insert_outgoing-fresh :
      (st : SessionState S) (s : S) (j : ℕ)
      → Inv st
      → let (st', id) = insert_outgoing st s in
        (get_stream_ref st id ≡ none)
        × (parity_of id ≡ st.outgoing_parity)
        × (get_stream_ref st' id ≡ some s)
        × (get_stream_ref st' j ≡ (if id == j then some s else get_stream_ref st j))
  unfolding insert_outgoing get_stream_ref
  insert_outgoing-fresh st s j v = (
    v.fresh st.next_stream_id v.parity (omega arith),
    v.parity,
    ground (arith, lookup-insert st.next_stream_id st.next_stream_id s st.streams),
    lookup-insert st.next_stream_id j s st.streams,
  )

  -- `insert_outgoing` keeps the invariant, as long as the next identifier but one is below 2 ^ 32.
  pub insert_outgoing-Inv :
      (st : SessionState S) (s : S)
      → Inv st
      → st.next_stream_id + 2 < 2 ^ 32
      → Inv (insert_outgoing st s).0
  unfolding insert_outgoing
  insert_outgoing-Inv st s v room = record {
    distinct = insert-Distinct st.next_stream_id s st.streams v.distinct;
    parity = rw wrap (parity_of-add_two st.next_stream_id ∙ v.parity);
    fresh = λ j p h. ground (
      arith,
      lookup-insert st.next_stream_id j s st.streams,
      v.fresh j p (omega (arith, wrap)),
      wrap,
    );
  }
    where
      wrap : (st.next_stream_id + 2) % 2 ^ 32 ≡ st.next_stream_id + 2
      wrap = omega arith

  -- A stream of the peer is refused, and nothing changes, if its identifier has the parity of the
  -- session's own streams. Otherwise it is found under its identifier, and every other stream stays.
  pub insert_incoming_cases :
      (st : SessionState S) (id : ℕ) (s : S) (j : ℕ)
      → let (st', accepted) = insert_incoming st id s in
        ((parity_of id ≡ st.outgoing_parity) × (accepted ≡ false) × (st' ≡ st))
        ⊎ ((parity_of id ≢ st.outgoing_parity)
            × (accepted ≡ true)
            × (get_stream_ref st' j ≡ (if id == j then some s else get_stream_ref st j)))
  unfolding insert_incoming validate_incoming_parity get_stream_ref
  insert_incoming_cases st id s j =
      elim (Bool-cases (same_parity (parity_of id) st.outgoing_parity)) [
        | inl p ↦ inl ((same_parity_iff _ _).0 p, rw p refl, rw p refl)
        | inr p ↦ inr (
          (λ e. cc (p, (same_parity_iff (parity_of id) st.outgoing_parity).1 e)),
          rw p refl,
          rw p (lookup-insert id j s st.streams),
        )
      ]

  -- `insert_incoming` keeps the invariant, accepted or not.
  pub insert_incoming-Inv :
      (st : SessionState S) (id : ℕ) (s : S) → Inv st → Inv (insert_incoming st id s).0
  unfolding insert_incoming validate_incoming_parity
  insert_incoming-Inv st id s v =
      elim (Bool-cases (same_parity (parity_of id) st.outgoing_parity)) [
        | inl p ↦ rw p v
        | inr p ↦ rw p (record {
          distinct = insert-Distinct id s st.streams v.distinct;
          parity = v.parity;
          fresh = λ j q h. elim (Bool-cases (id == j)) [
            | inl e ↦ absurd (other_parity p (ground (arith, q)))
            | inr e ↦ lookup-insert id j s st.streams ∙ rw e (v.fresh j q h)
          ];
        })
      ]
    where
      other_parity :
          same_parity (parity_of id) st.outgoing_parity ≡ false
          → ¬ (parity_of id ≡ st.outgoing_parity)
      other_parity p e = cc (p, (same_parity_iff _ _).1 e)

  pub change_stream-Inv :
      (st : SessionState S) (id : ℕ) (f : S → S) → Inv st → Inv (change_stream st id f)
  unfolding change_stream
  change_stream-Inv st id f v = record {
    distinct = update-Distinct id f st.streams v.distinct;
    parity = v.parity;
    fresh = λ j p h. ground (arith, lookup-update id j f st.streams, v.fresh j p h);
  }

  pub remove_stream-Inv : (st : SessionState S) (id : ℕ) → Inv st → Inv (remove_stream st id).0
  unfolding remove_stream
  remove_stream-Inv st id v = record {
    distinct = remove-Distinct id st.streams v.distinct;
    parity = v.parity;
    fresh = λ j p h. ground (arith, lookup-remove id j st.streams, v.fresh j p h);
  }
