-- ===== src/Core/Registry/Evolves.antt =====
-- What every change of the manager leaves to those who hold a session: it is still there, it is the same
-- session, and its output has only grown.
use tty_gateway.Base.{
  ℕ, ◌^◌, ◌<◌, ◌≡◌, ◌∙◌, refl, sym, ap, subst, inl, inr, some, [], ◌++◌, Bytes, arith, length,
  length-append, get_elem?, set, get_elem?-set_self, get_elem?-set_ne, get_elem?-lt,
  get_elem?-append_left, append-nil, append_assoc, Option-cases,
}
use tty_gateway.Core.Scrollback.{SessionInner, append, close, Holds, append-Holds, max_bytes-append}
use tty_gateway.Core.Registry.{
  SessionManager, Session, SshHandle, create, remove, update, ingest, ingest_end,
}
use tty_gateway.Core.Registry.Reach.{Step, creates, removes, ingests, ends, Reach, here, also}
use mathlib.Core.Option.{some-injective}
use native.Mathlib.Decide.{ℕ_discrete}

-- `t` is `s` after some output, and perhaps its end.
pub data Grew (s : SessionInner) : SessionInner → Type 0 where
  same : Grew s s
  more : {t : SessionInner} → Grew s t → (bytes : Bytes) → Grew s (append t bytes)
  ended : {t : SessionInner} → Grew s t → Grew s (close t)

unfoldable pub output_of : {s t : SessionInner} → Grew s t → Bytes
output_of same = []
output_of (more g bytes) = output_of g ++ bytes
output_of (ended g) = output_of g

pub Grew-trans : {s t u : SessionInner} → Grew s t → Grew t u → Grew s u
Grew-trans g same = g
Grew-trans g (more k bytes) = more (Grew-trans g k) bytes
Grew-trans g (ended k) = ended (Grew-trans g k)

pub output_of_trans :
    {s t u : SessionInner} (g : Grew s t) (k : Grew t u)
    → output_of (Grew-trans g k) ≡ output_of g ++ output_of k
unfolding output_of Grew-trans
output_of_trans g same = sym (append-nil (output_of g))
output_of_trans g (more k bytes) =
    ap (λ l. l ++ bytes) (output_of_trans g k) ∙ append_assoc (output_of g) (output_of k) bytes
output_of_trans g (ended k) = output_of_trans g k

pub max_bytes-Grew : {s t : SessionInner} → Grew s t → t.max_bytes ≡ s.max_bytes
max_bytes-Grew same = refl
max_bytes-Grew (more {t} g bytes) = max_bytes-append t bytes ∙ max_bytes-Grew g
max_bytes-Grew (ended g) = max_bytes-Grew g

pub close-Holds : {h : Bytes} {s : SessionInner} → Holds h s → Holds h (close s)
close-Holds v = record { window = v.window; start = v.start; stop = v.stop; small = v.small }

-- The scrollback goes on to hold the output, as long as that is fewer than 2 ^ 64 bytes.
pub Grew-Holds :
    {h : Bytes} {s t : SessionInner} (g : Grew s t)
    → Holds h s
    → length (h ++ output_of g) < 2 ^ 64
    → Holds (h ++ output_of g) t
unfolding output_of
Grew-Holds {h} {s} same v fits = subst (λ l. Holds l s) (sym (append-nil h)) v
Grew-Holds {h} {s} (more {t} g bytes) v fits =
    subst (λ l. Holds l (append t bytes)) (append_assoc h (output_of g) bytes)
      (append-Holds bytes
        (Grew-Holds g v (
          omega (
            arith,
            length-append h (output_of g),
            length-append h (output_of g ++ bytes),
            length-append (output_of g) bytes,
          )))
        (omega (arith, ap length (append_assoc h (output_of g) bytes))))
Grew-Holds (ended g) v fits = close-Holds (Grew-Holds g v fits)

module _ {Tx : Type 0} where
  -- A later state of the same session.
  pub record Later (s t : Session Tx) : Type 0 where
    pub same_id : t.id ≡ s.id
    pub same_token : t.resume_token ≡ s.resume_token
    pub same_input : t.input ≡ s.input
    pub grew : Grew s.inner t.inner

  pub record Evolves (m k : SessionManager Tx) : Type 0 where
    pub at :
        (i : ℕ) (s : Session Tx)
        → get_elem? m.heap i ≡ some s
        → (t : Session Tx) × (get_elem? k.heap i ≡ some t) × Later s t

  still : (s : Session Tx) → Later s s
  still s = record { same_id = refl; same_token = refl; same_input = refl; grew = same }

  pub Evolves-refl : (m : SessionManager Tx) → Evolves m m
  Evolves-refl m = record { at = λ i s e. (s, e, still s) }

  Later-trans : {s t u : Session Tx} → Later s t → Later t u → Later s u
  Later-trans p q = record {
    same_id = q.same_id ∙ p.same_id;
    same_token = q.same_token ∙ p.same_token;
    same_input = q.same_input ∙ p.same_input;
    grew = Grew-trans p.grew q.grew;
  }

  pub Evolves-trans : {m k l : SessionManager Tx} → Evolves m k → Evolves k l → Evolves m l
  Evolves-trans p q = record {
    at = λ i s e.
        let (t, f, st) = p.at i s e in let (u, g, tu) = q.at i t f in (u, g, Later-trans st tu);
  }

  pub create-Evolves :
      (m : SessionManager Tx) (id : ℕ) (token : Bytes) (ssh : SshHandle Tx)
      → Evolves m (create m id token ssh).0
  unfolding create
  create-Evolves m id token ssh = record {
    at = λ i s e. (s, get_elem?-append_left m.heap _ i (get_elem?-lt m.heap i s e) ∙ e, still s);
  }

  pub remove-Evolves : (m : SessionManager Tx) (id : ℕ) → Evolves m (remove m id)
  unfolding remove
  remove-Evolves m id = record { at = λ i s e. (s, e, still s) }

  update-Evolves :
      (m : SessionManager Tx) (at : ℕ) (f : Session Tx → Session Tx)
      → ((s : Session Tx) → Later s (f s))
      → Evolves m (update m at f)
  unfolding update
  update-Evolves m at f later = elim (Option-cases (get_elem? m.heap at)) [
    | inl e ↦ rw (e, update) (Evolves-refl m)
    | inr (s, e) ↦
        rw (e, update)
          (record {
            at = λ i r g. elim (ℕ_discrete at i) [
              | yes p ↦
                  (let here_s : s ≡ r = some-injective s r (sym e ∙ ap (get_elem? m.heap) p ∙ g) in
                    (
                      f s,
                      ap (get_elem? (set m.heap at (f s))) (sym p)
                          ∙ get_elem?-set_self m.heap at (f s) (get_elem?-lt m.heap at s e),
                      subst (λ x. Later x (f s)) here_s (later s),
                    ))
              | no p ↦ (r, get_elem?-set_ne m.heap (f s) p ∙ g, still r)
            ];
          })
  ]

  pub Step-Evolves : {m k : SessionManager Tx} → Step m k → Evolves m k
  unfolding ingest ingest_end
  Step-Evolves {m} (creates id token ssh e f) = create-Evolves m id token ssh
  Step-Evolves {m} (removes id) = remove-Evolves m id
  Step-Evolves {m} (ingests session bytes) =
      update-Evolves m session (λ s. record s { inner = append s.inner bytes })
        (λ s. record {
          same_id = refl;
          same_token = refl;
          same_input = refl;
          grew = more same bytes;
        })
  Step-Evolves {m} (ends session) =
      update-Evolves m session (λ s. record s { inner = close s.inner })
        (λ s. record { same_id = refl; same_token = refl; same_input = refl; grew = ended same })

  -- In every manager that is reached from another, each session of that one is still at its address,
  -- with its id, token and input, and its scrollback is the earlier one after some more output and
  -- perhaps its end: no connection takes output away, also not by removing the session.
  pub Reach-Evolves : {m k : SessionManager Tx} → Reach m k → Evolves m k
  Reach-Evolves {m} here = Evolves-refl m
  Reach-Evolves (also r s) = Evolves-trans (Reach-Evolves r) (Step-Evolves s)
