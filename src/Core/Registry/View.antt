-- ===== src/Core/Registry/View.antt =====
-- The registry as its clients see it: which session a resume token reaches.
use tty_gateway.Base.{
  ℕ, suc, ◌≡◌, inl, inr, none, some, Bytes, arith, length, get_elem?-ne-none, if◌then◌else◌,
  Option-cases, ==_iff,
}
use tty_gateway.Base.Map.{
  Map, Eq, get, insert, get-insert, beq_bytes_iff, bytes_eq, nat_eq, beq_bytes, IsDistinct,
}
use tty_gateway.Base.Map
use tty_gateway.Core.Registry.{SessionManager, SshHandle, create, remove, resume, len}
use tty_gateway.Core.Registry.Invariant.{IsConsistent}
use tty_gateway.Core.Registry.{token_of}

module _ {Tx : Type 0} where
  -- With an id that is not in use, `create` makes its token reach the new session, at a new address,
  -- and changes what no other token reaches.
  pub resume-create :
      (m : SessionManager Tx) (id : ℕ) (token : Bytes) (ssh : SshHandle Tx) (t : Bytes)
      → IsConsistent m
      → get m.by_id id ≡ none
      → let (m', session) = create m id token ssh in
        (resume m' t ≡ (if beq_bytes token t then some session else resume m t))
        × (session ≡ length m.heap)
  unfolding create resume
  resume-create m id token ssh t v new_id = elim (Option-cases (get m.by_token t)) [
    | inl absent ↦ ground (
      arith,
      absent,
      get-insert m.by_token token t id,
      get-insert m.by_id id id (length m.heap),
      ==_iff id id,
    )
    | inr (j, e) ↦
        let (session, at_id, at_token) = v.tokens t j e in
        ground (
          arith,
          e,
          at_id,
          get-insert m.by_token token t id,
          get-insert m.by_id id id (length m.heap),
          get-insert m.by_id id j (length m.heap),
          ==_iff id id,
          ==_iff id j,
        )
  ]

  -- Removing the session that a token reaches makes that token reach nothing, and changes what no
  -- other token reaches.
  pub resume-remove :
      (m : SessionManager Tx) (id session : ℕ) (t : Bytes)
      → IsConsistent m
      → get m.by_id id ≡ some session
      → resume (remove m id) t
        ≡ (if beq_bytes (token_of m.heap session) t then none else resume m t)
  unfolding remove resume
  resume-remove m id session t v e = elim (Option-cases (get m.by_token t)) [
    | inl absent ↦ ground (
      arith,
      e,
      absent,
      get_elem?-ne-none m.heap session (v.ids id session e).in_heap,
      Map.get-remove m.by_token (token_of m.heap session) t,
    )
    | inr (j, f) ↦
        let (other, at_id, at_token) = v.tokens t j f in
        ground (
          arith,
          e,
          f,
          at_id,
          at_token,
          v.ids id session e,
          get_elem?-ne-none m.heap session (v.ids id session e).in_heap,
          Map.get-remove m.by_token (token_of m.heap session) t,
          Map.get-remove m.by_id id j,
          beq_bytes_iff (token_of m.heap session) t,
          ==_iff id j,
        )
  ]

  -- `remove` of an id that is not registered changes nothing.
  pub remove_unknown : (m : SessionManager Tx) (id : ℕ) → get m.by_id id ≡ none → remove m id ≡ m
  unfolding remove
  remove_unknown m id e = ground (arith, e, Map.remove_absent m.by_id id)

  -- A session that is created under an id that was not registered counts as one more.
  pub len-create :
      (m : SessionManager Tx) (id : ℕ) (token : Bytes) (ssh : SshHandle Tx)
      → get m.by_id id ≡ none
      → len (create m id token ssh).0 ≡ suc (len m)
  unfolding len create
  len-create m id token ssh e = Map.length-insert_absent m.by_id id (length m.heap) e

  -- A session that is removed from a consistent manager no longer counts.
  pub len-remove :
      (m : SessionManager Tx) (id session : ℕ)
      → IsConsistent m
      → get m.by_id id ≡ some session
      → len m ≡ suc (len (remove m id))
  unfolding len remove
  len-remove m id session v e = Map.length-remove m.by_id id session v.distinct e
