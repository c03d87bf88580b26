-- ===== src/Core/Registry/Directory.antt =====
-- What the registry promises: one table from the resume tokens of the open sessions to the sessions,
-- though the manager keeps two maps, of ids and of tokens.
use tty_gateway.Base.{
  ℕ, ◌≡◌, sym, ap, ◌∙◌, inl, inr, Option, none, some, Bytes, arith, length, get_elem?, Option-cases,
}
use tty_gateway.Base.Map.{get, bytes_eq, nat_eq, get-empty}
use tty_gateway.Core.Registry.{
  SessionManager, SshHandle, with_scrollback, create, remove, resume, len, update, ingest,
  ingest_end, token_of,
}
use tty_gateway.Core.Registry.Invariant.{IsConsistent}
use tty_gateway.Core.Registry.Reach.{
  Step, creates, removes, ingests, ends, Reach, here, also, reachable-IsConsistent,
}
use tty_gateway.Core.Registry.View.{
  resume-create, resume-remove, remove_unknown, len-create, len-remove,
}
use tty_gateway.Core.Registry.Table.{
  Table, empty, lookup, size, put, drop, lookup-empty, lookup-put, lookup-drop, size-empty,
  size-put, size-drop, ext,
}

abbrev pub Directory : Type 0
Directory = Table Bytes

module _ {Tx : Type 0} where
  -- The session of an id leaves the directory, if there is one.
  leave : SessionManager Tx → Option ℕ → Directory → Directory
  leave m none d = d
  leave m (some session) d = drop (token_of m.heap session) d

  entered : {m k : SessionManager Tx} → Step m k → Directory → Directory
  unfolding leave
  entered {m} (creates id token ssh _ _) d = put token (length m.heap) d
  entered {m} (removes id) d = leave m (get m.by_id id) d
  entered (ingests _ _) d = d
  entered (ends _) d = d

  -- The directory of the open sessions: a new session enters under its token, as the one that comes
  -- after all sessions so far, a removed one leaves, and output changes nothing.
  unfoldable pub directory : {m k : SessionManager Tx} → Reach m k → Directory
  unfolding entered
  directory here = empty
  directory (also r step) = entered step (directory r)

  record Shows (m : SessionManager Tx) (d : Directory) : Type 0 where
    tokens : (t : Bytes) → resume m t ≡ lookup d t
    count : len m ≡ size d

  resume_unknown : (m : SessionManager Tx) (t : Bytes) → get m.by_token t ≡ none → resume m t ≡ none
  unfolding resume
  resume_unknown m t h = ground (arith, h)

  resume_known :
      (m : SessionManager Tx) (id session : ℕ)
      → IsConsistent m
      → get m.by_id id ≡ some session
      → resume m (token_of m.heap session) ≡ some session
  unfolding resume
  resume_known m id session v h = ground (arith, (v.ids id session h).back, h)

  create-Shows :
      (m : SessionManager Tx) (id : ℕ) (token : Bytes) (ssh : SshHandle Tx) (d : Directory)
      → IsConsistent m
      → get m.by_id id ≡ none
      → get m.by_token token ≡ none
      → Shows m d
      → Shows (create m id token ssh).0 (put token (length m.heap) d)
  create-Shows m id token ssh d v new_id new_token s = record {
    tokens = λ t. ground (
      arith,
      resume-create m id token ssh t v new_id,
      lookup-put token (length m.heap) d t,
      s.tokens t,
    );
    count =
        let unknown : lookup d token ≡ none =
          ground (arith, s.tokens token, resume_unknown m token new_token) in
        ground (
          arith,
          len-create m id token ssh new_id,
          size-put token (length m.heap) d unknown,
          s.count,
        );
  }

  leave-Shows :
      (m : SessionManager Tx) (id : ℕ) (d : Directory)
      → IsConsistent m
      → Shows m d
      → Shows (remove m id) (leave m (get m.by_id id) d)
  unfolding leave
  leave-Shows m id d v s = elim (Option-cases (get m.by_id id)) [
    | inl unknown ↦ rw (remove_unknown m id unknown, unknown, leave) s
    | inr (session, e) ↦
        let token = token_of m.heap session in
        let known = resume_known m id session v e in
        rw (e, leave)
          record {
            tokens = λ t.
                ground (arith, resume-remove m id session t v e, lookup-drop token d t, s.tokens t);
            count = ground (
              arith,
              len-remove m id session v e,
              size-drop token session d,
              s.tokens token,
              known,
              s.count,
            );
          }
  ]

  update-Shows :
      (m : SessionManager Tx) (session : ℕ) (f : _) (d : Directory)
      → Shows m d
      → Shows (update m session f) d
  unfolding update
  update-Shows m session f d s = elim (Option-cases (get_elem? m.heap session)) [
    | inl e ↦ rw (e, update) s
    | inr (old, e) ↦
        rw (e, update)
          record { tokens = λ t. unfold resume in s.tokens t; count = unfold len in s.count }
  ]

  step-Shows :
      {m k : SessionManager Tx} (step : Step m k) (d : Directory)
      → IsConsistent m
      → Shows m d
      → Shows k (entered step d)
  unfolding entered ingest ingest_end
  step-Shows {m} (creates id token ssh new_id new_token) d v s =
      create-Shows m id token ssh d v new_id new_token s
  step-Shows {m} (removes id) d v s = leave-Shows m id d v s
  step-Shows {m} (ingests session bytes) d v s = update-Shows m session _ d s
  step-Shows {m} (ends session) d v s = update-Shows m session _ d s

module _ (Tx : Type 0) (max_scrollback : ℕ) where
  reach-Shows :
      {m : SessionManager Tx} (r : Reach (with_scrollback Tx max_scrollback) m)
      → Shows m (directory r)
  unfolding directory
  reach-Shows here = record {
    tokens = λ t. resume_unknown _ t (get-empty t) ∙ sym (lookup-empty t);
    count = unfold len in sym (size-empty Bytes);
  }
  reach-Shows (also r step) =
      step-Shows step (directory r) (reachable-IsConsistent Tx max_scrollback _ r) (reach-Shows r)

  -- In every manager that the program can reach, a resume token leads where the directory of the
  -- open sessions says, and len is the number of sessions in the directory.
  pub resume-directory :
      (m : SessionManager Tx) (r : Reach (with_scrollback Tx max_scrollback) m)
      → ((t : Bytes) → resume m t ≡ lookup (directory r) t) × (len m ≡ size (directory r))
  resume-directory m r = let s = reach-Shows r in (s.tokens, s.count)

  -- Two managers that the program can reach and that answer every resume token alike have the same
  -- directory, whatever happened before, and so as many sessions.
  pub resume-len :
      (m n : SessionManager Tx) (r : Reach (with_scrollback Tx max_scrollback) m)
      (q : Reach (with_scrollback Tx max_scrollback) n)
      → ((t : Bytes) → resume m t ≡ resume n t)
      → (directory r ≡ directory q) × (len m ≡ len n)
  resume-len m n r q same =
      let s = reach-Shows r in
      let u = reach-Shows q in
      let e = ext _ _ (λ t. sym (s.tokens t) ∙ same t ∙ u.tokens t) in
      (e, s.count ∙ ap size e ∙ sym u.count)
