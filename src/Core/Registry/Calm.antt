-- ===== src/Core/Registry/Calm.antt =====
-- A session that is created and taken back, while the others neither create nor remove one.
use tty_gateway.Base.{
  ℕ, ◌≡◌, ◌∙◌, refl, ap, none, some, Bytes, arith, length, get_elem?, get_elem?-append_length,
}
use tty_gateway.Base.Map.{
  Map, get, insert, get-insert, remove-insert, remove as erase, nat_eq, bytes_eq,
}
use tty_gateway.Base.{==_iff}
use tty_gateway.Core.Registry.{
  Registry, SessionManager, SshHandle, Session, spawn, create, remove, id_of, forget_token,
}
use tty_gateway.Core.Registry.Evolves.{Evolves, Evolves-refl, Evolves-trans}
use tty_gateway.Base.Action.Keeps.{IsPreorder}

-- `k` is `m` after what the ingest tasks alone do.
pub record Calm {Tx : Type 0} (m k : SessionManager Tx) : Type 0 where
  pub same_registry : k.inner ≡ m.inner
  pub evolves : Evolves m k

module _ {Tx : Type 0} where
  pub Calm-IsPreorder : IsPreorder (Calm {Tx = Tx})
  Calm-IsPreorder = record {
    same = λ m. record { same_registry = refl; evolves = Evolves-refl m };
    trans = λ m k l p q. record {
      same_registry = q.same_registry ∙ p.same_registry;
      evolves = Evolves-trans p.evolves q.evolves;
    };
  }

  found-token :
      (k : SessionManager Tx) (s : ℕ) (t : Session Tx) (tokens : Map Bytes ℕ)
      → get_elem? k.heap s ≡ some t
      → forget_token k.heap (some s) tokens ≡ erase tokens t.resume_token
  unfolding forget_token
  found-token k s t tokens e = rw (e, forget_token) refl

  remove-inner :
      (k : SessionManager Tx) (id s : ℕ) (t : Session Tx)
      → get k.by_id id ≡ some s
      → get_elem? k.heap s ≡ some t
      → Path Registry
          (remove k id).inner
          (record { by_id = erase k.by_id id; by_token = erase k.by_token t.resume_token })
  unfolding remove
  remove-inner k id s t e found =
      ap (λ x. record { by_id = erase k.by_id id; by_token = x })
        (ap (λ o. forget_token k.heap o k.by_token) e ∙ found-token k s t k.by_token found)

  found_id :
      (k : SessionManager Tx) (s : ℕ) (t : Session Tx)
      → get_elem? k.heap s ≡ some t
      → id_of k.heap s ≡ t.id
  found_id k s t e = rw (e, id_of) refl

  -- The registry is what it was before.
  pub remove-create :
      (m : SessionManager Tx) (id : ℕ) (token : Bytes) (ssh : SshHandle Tx) (k : SessionManager Tx)
      → get m.by_id id ≡ none
      → get m.by_token token ≡ none
      → Calm (create m id token ssh).0 k
      → (remove k (id_of k.heap (length m.heap))).inner ≡ m.inner
  unfolding create
  remove-create m id token ssh k new_id new_token calm =
      let s = length m.heap in
      let (t, found, later) =
        calm.evolves.at s (spawn id token ssh m.max_scrollback)
          (get_elem?-append_length m.heap _) in
      let ids : k.by_id ≡ insert m.by_id id s = ap (λ (r : Registry). r.by_id) calm.same_registry in
      let tokens : k.by_token ≡ insert m.by_token token id =
        ap (λ (r : Registry). r.by_token) calm.same_registry in
      let there : get k.by_id id ≡ some s =
        ap (λ x. get x id) ids ∙ ground (arith, get-insert m.by_id id id s, ==_iff id id) in
      ap (λ j. (remove k j).inner) (found_id k s t found ∙ later.same_id)
      ∙ remove-inner k id s t there found
      ∙ (λ i. record {
        by_id = (ap (λ x. erase x id) ids ∙ remove-insert m.by_id id s new_id) i;
        by_token =
            (ap (λ x. erase x t.resume_token) tokens
                ∙ ap (λ x. erase (insert m.by_token token id) x) later.same_token
                ∙ remove-insert m.by_token token id new_token)
              i;
      })
