-- ===== src/Core/Registry/Reach.antt =====
-- Every manager that the program can build: from an empty one by creating, removing and feeding
-- sessions, in any order.
use tty_gateway.Base.{
  ℕ, ◌≡◌, refl, subst, ◌∙◌, inl, inr, Option, none, some, List, [], Bytes, arith, length, get_elem?,
  set, get_elem?-set_self, get_elem?-set_ne, get_elem?-lt, length-set, Option-cases,
}
use tty_gateway.Base.Map.{get, get-empty, nat_eq, bytes_eq}
use tty_gateway.Core.Registry.{
  SessionManager, Session, SshHandle, with_scrollback, create, remove, update, ingest, ingest_end,
}
use tty_gateway.Core.Registry.Invariant.{IsConsistent, create-IsConsistent, remove-IsConsistent}
use tty_gateway.Core.Registry.{id_of, token_of}
use native.Mathlib.Decide.{ℕ_discrete}

-- Ids and tokens are random; a step of `create` draws ones that are not in use.
pub data Step {Tx : Type 0} (m : SessionManager Tx) : SessionManager Tx → Type 0 where
  creates :
      (id : ℕ) (token : Bytes) (ssh : SshHandle Tx)
      → get m.by_id id ≡ none
      → get m.by_token token ≡ none
      → Step m (create m id token ssh).0
  removes : (id : ℕ) → Step m (remove m id)
  ingests : (session : ℕ) (bytes : Bytes) → Step m (ingest m session bytes)
  ends : (session : ℕ) → Step m (ingest_end m session)

pub data Reach {Tx : Type 0} (m : SessionManager Tx) : SessionManager Tx → Type 0 where
  here : Reach m m
  also : {n k : SessionManager Tx} → Reach m n → Step n k → Reach m k

module _ {Tx : Type 0} where
  -- What a change of one session leaves alone.
  record Same (m k : SessionManager Tx) : Type 0 where
    registry : k.inner ≡ m.inner
    size : length k.heap ≡ length m.heap
    ids : (session : ℕ) → id_of k.heap session ≡ id_of m.heap session
    tokens : (session : ℕ) → token_of k.heap session ≡ token_of m.heap session

  set-keeps {ℓ} :
      {A : Type ℓ} (f : Option (Session Tx) → A) (heap : List (Session Tx)) (at : ℕ)
      (s s' : Session Tx)
      → get_elem? heap at ≡ some s
      → f (some s') ≡ f (some s)
      → (session : ℕ) → f (get_elem? (set heap at s') session) ≡ f (get_elem? heap session)
  set-keeps f heap at s s' e same session = elim (ℕ_discrete at session) [
    | yes p ↦
        subst (λ k. f (get_elem? (set heap at s') k) ≡ f (get_elem? heap k)) p
          (rw (get_elem?-set_self heap at s' (get_elem?-lt heap at s e), e) same)
    | no p ↦ rw (get_elem?-set_ne heap s' p)
  ]

  update-Same :
      (m : SessionManager Tx) (at : ℕ) (f : Session Tx → Session Tx)
      → ((s : Session Tx) → ((f s).id ≡ s.id) × ((f s).resume_token ≡ s.resume_token))
      → Same m (update m at f)
  unfolding update
  update-Same m at f keeps = elim (Option-cases (get_elem? m.heap at)) [
    | inl e ↦
        rw (e, update)
          (record { registry = refl; size = refl; ids = λ _. refl; tokens = λ _. refl })
    | inr (s, e) ↦
        rw (e, update)
          record {
            registry = refl;
            size = length-set m.heap at (f s);
            ids = set-keeps (elim [ none ↦ 0 | some t ↦ t.id ]) m.heap at s (f s) e (keeps s).0;
            tokens =
                set-keeps (elim [ none ↦ [] | some t ↦ t.resume_token ]) m.heap at s (f s) e
                  (keeps s).1;
          }
  ]

  Same-IsConsistent : {m k : SessionManager Tx} → Same m k → IsConsistent m → IsConsistent k
  Same-IsConsistent {m} {k} same v = record {
    ids = λ id session h.
        let lead = v.ids id session (subst (λ r. get r.by_id id ≡ some session) same.registry h) in
        record {
          in_heap = omega (arith, same.size, lead.in_heap);
          same_id = same.ids session ∙ lead.same_id;
          back = rw (same.registry, same.tokens session) lead.back;
        };
    tokens = λ token id h.
        let (session, at_id, at_token) =
          v.tokens token id (subst (λ r. get r.by_token token ≡ some id) same.registry h) in
        (session, rw same.registry at_id, same.tokens session ∙ at_token);
    distinct = rw same.registry v.distinct;
  }

  Step-IsConsistent : {m k : SessionManager Tx} → Step m k → IsConsistent m → IsConsistent k
  unfolding ingest ingest_end
  Step-IsConsistent {m} (creates id token ssh new_id new_token) v =
      create-IsConsistent m id token ssh v new_id new_token
  Step-IsConsistent {m} (removes id) v = remove-IsConsistent m id v
  Step-IsConsistent {m} (ingests session bytes) v =
      Same-IsConsistent (update-Same m session _ (λ s. (refl, refl))) v
  Step-IsConsistent {m} (ends session) v =
      Same-IsConsistent (update-Same m session _ (λ s. (refl, refl))) v

  Reach-IsConsistent : {m k : SessionManager Tx} → Reach m k → IsConsistent m → IsConsistent k
  Reach-IsConsistent here v = v
  Reach-IsConsistent (also r step) v = Step-IsConsistent step (Reach-IsConsistent r v)

pub empty-IsConsistent :
    (Tx : Type 0) (max_scrollback : ℕ) → IsConsistent (with_scrollback Tx max_scrollback)
empty-IsConsistent Tx n = record {
  ids = λ id session h. cc (get-empty {V = ℕ} id);
  tokens = λ token id h. cc (get-empty {V = ℕ} token);
  distinct = tt;
}

-- In every manager that the program can reach, each registered id leads to a session of that id
-- whose token leads back to the id, each token leads to a registered session that has that token,
-- and no id is registered twice.
pub reachable-IsConsistent :
    (Tx : Type 0) (max_scrollback : ℕ) (m : SessionManager Tx)
    → Reach (with_scrollback Tx max_scrollback) m
    → IsConsistent m
reachable-IsConsistent Tx n m r = Reach-IsConsistent r (empty-IsConsistent Tx n)
