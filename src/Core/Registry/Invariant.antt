-- ===== src/Core/Registry/Invariant.antt =====
-- The two maps of the registry and the sessions they lead to agree.
use tty_gateway.Base.{
  ℕ, ◌<◌, ◌≡◌, inl, inr, none, some, [], ◌∷◌, ◌++◌, Bytes, arith, length, length-append,
  get_elem?-append_left, get_elem?-append_length, get_elem?-ne-none, Option-cases, Bool-cases,
  ==_iff,
}
use tty_gateway.Base.Map.{
  Map, Eq, get, insert, get-insert, get-remove, beq_bytes_iff, bytes_eq, nat_eq, IsDistinct,
  insert-IsDistinct, remove-IsDistinct, beq_bytes,
}
use tty_gateway.Base.Map
use tty_gateway.Core.Registry.{id_of, token_of, SessionManager, SshHandle, spawn, create, remove}

-- What a registered id leads to: a session of that id, whose token leads back to the id.
pub record Leads {Tx : Type 0} (m : SessionManager Tx) (id session : ℕ) : Type 0 where
  pub in_heap : session < length m.heap
  pub same_id : id_of m.heap session ≡ id
  pub back : get m.by_token (token_of m.heap session) ≡ some id

pub record IsConsistent {Tx : Type 0} (m : SessionManager Tx) : Type 0 where
  pub ids : (id session : ℕ) → get m.by_id id ≡ some session → Leads m id session
  -- A token leads to a registered id, and that to a session which has the token.
  pub tokens :
      (token : Bytes) (id : ℕ)
      → get m.by_token token ≡ some id
      → (session : ℕ) × (get m.by_id id ≡ some session) × (token_of m.heap session ≡ token)
  pub distinct : IsDistinct m.by_id

module _ {Tx : Type 0} where
  create-Leads :
      (m : SessionManager Tx) (id : ℕ) (token : Bytes) (ssh : SshHandle Tx)
      → IsConsistent m
      → get m.by_id id ≡ none
      → get m.by_token token ≡ none
      → (j session : ℕ) → get (insert m.by_id id (length m.heap)) j ≡ some session
      → Leads (create m id token ssh).0 j session
  unfolding create
  create-Leads m id token ssh v new_id new_token j session h =
      let s = spawn id token ssh m.max_scrollback in
      ground (
        arith,
        v.ids j session,
        get-insert m.by_id id j (length m.heap),
        get-insert m.by_token token (token_of (m.heap ++ (s ∷ [])) session) id,
        bytes_eq.beq_iff token (token_of (m.heap ++ (s ∷ [])) session),
        get_elem?-append_length m.heap s,
        get_elem?-append_left m.heap (s ∷ []) session,
        length-append m.heap (s ∷ []),
      )

  create-tokens :
      (m : SessionManager Tx) (id : ℕ) (token : Bytes) (ssh : SshHandle Tx)
      → IsConsistent m
      → get m.by_id id ≡ none
      → (t : Bytes) (j : ℕ) → get (insert m.by_token token id) t ≡ some j
      → (session : ℕ) × (get (create m id token ssh).0.by_id j ≡ some session)
        × (token_of (create m id token ssh).0.heap session ≡ t)
  unfolding create
  create-tokens m id token ssh v new_id t j h =
      let s = spawn id token ssh m.max_scrollback in
      elim (Bool-cases (beq_bytes token t)) [
        | inl same ↦
            let e : id ≡ j = ground (arith, get-insert m.by_token token t id, same) in
            (
              length m.heap,
              ground (arith, get-insert m.by_id id j (length m.heap), e),
              ground (arith, beq_bytes_iff token t, same, get_elem?-append_length m.heap s),
            )
        | inr other ↦
            let old : get m.by_token t ≡ some j =
              ground (arith, get-insert m.by_token token t id, other) in
            let (session, at_id, at_token) = v.tokens t j old in
            let lead = v.ids j session at_id in
            (
              session,
              ground (arith, get-insert m.by_id id j (length m.heap), at_id, new_id),
              ground (arith, at_token, lead.in_heap, get_elem?-append_left m.heap (s ∷ []) session),
            )
      ]

  -- Under fresh ids and tokens `create` keeps the two maps in agreement.
  pub create-IsConsistent :
      (m : SessionManager Tx) (id : ℕ) (token : Bytes) (ssh : SshHandle Tx)
      → IsConsistent m
      → get m.by_id id ≡ none
      → get m.by_token token ≡ none
      → IsConsistent (create m id token ssh).0
  create-IsConsistent m id token ssh v new_id new_token = record {
    ids = λ j session h.
        create-Leads m id token ssh v new_id new_token j session (unfold create in h);
    tokens = λ t j h. create-tokens m id token ssh v new_id t j (unfold create in h);
    distinct = unfold create in insert-IsDistinct m.by_id id (length m.heap) v.distinct;
  }

  remove-Leads :
      (m : SessionManager Tx) (id : ℕ)
      → IsConsistent m
      → (j session : ℕ) → get (remove m id).by_id j ≡ some session
      → Leads (remove m id) j session
  unfolding remove
  remove-Leads m id v j session h = elim (Option-cases (get m.by_id id)) [
    | inl gone ↦ ground (arith, gone, v.ids j session, Map.get-remove m.by_id id j)
    | inr (mine, e) ↦ ground (
      arith,
      e,
      v.ids j session,
      v.ids id mine,
      Map.get-remove m.by_id id j,
      Map.get-remove m.by_token (token_of m.heap mine) (token_of m.heap session),
      beq_bytes_iff (token_of m.heap mine) (token_of m.heap session),
    )
  ]

  -- A token that is left after `remove` was there before,
  left-token :
      (m : SessionManager Tx) (id : ℕ) (t : Bytes) (j : ℕ)
      → get (remove m id).by_token t ≡ some j
      → get m.by_token t ≡ some j
  unfolding remove
  left-token m id t j h = elim (Option-cases (get m.by_id id)) [
    | inl gone ↦ ground (arith, gone)
    | inr (mine, e) ↦ ground (arith, e, Map.get-remove m.by_token (token_of m.heap mine) t)
  ]

  -- and the id that it leads to is not the one that was removed.
  left-id :
      (m : SessionManager Tx) (id : ℕ)
      → IsConsistent m
      → (t : Bytes) (j session : ℕ) → get (remove m id).by_token t ≡ some j
      → get m.by_id j ≡ some session
      → token_of m.heap session ≡ t
      → get (remove m id).by_id j ≡ some session
  unfolding remove
  left-id m id v t j session h at_id at_token =
      let lead = v.ids j session at_id in
      ground (
        arith,
        get_elem?-ne-none m.heap session lead.in_heap,
        Map.get-remove m.by_id id j,
        ==_iff id j,
        Map.get-remove m.by_token (token_of m.heap session) t,
        beq_bytes_iff (token_of m.heap session) t,
      )

  remove-tokens :
      (m : SessionManager Tx) (id : ℕ)
      → IsConsistent m
      → (t : Bytes) (j : ℕ) → get (remove m id).by_token t ≡ some j
      → (session : ℕ) × (get (remove m id).by_id j ≡ some session) × (token_of m.heap session ≡ t)
  remove-tokens m id v t j h =
      let (session, at_id, at_token) = v.tokens t j (left-token m id t j h) in
      (session, left-id m id v t j session h at_id at_token, at_token)

  -- `remove` keeps the two maps in agreement, whatever id it is given.
  pub remove-IsConsistent :
      (m : SessionManager Tx) (id : ℕ) → IsConsistent m → IsConsistent (remove m id)
  remove-IsConsistent m id v = record {
    ids = remove-Leads m id v;
    tokens = λ t j h. let (a, b, c) = remove-tokens m id v t j h in (a, b, unfold remove in c);
    distinct = unfold remove in remove-IsDistinct m.by_id id v.distinct;
  }
