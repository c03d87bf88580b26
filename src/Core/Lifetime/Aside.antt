-- ===== src/Core/Lifetime/Aside.antt =====
-- The steps of a session and its SSH task that leave the output of the session where it is.
use tty_gateway.Base.{
  ℕ, ◌≡◌, refl, sym, ap, Bool, true, false, Option, none, List, [], ◌∷◌, ◌++◌, Bytes, ltb,
  if◌then◌else◌, Bool-cases, inl, inr,
}
use tty_gateway.Ssh.Client.{SshInput}
use tty_gateway.Ssh.Actor.{Effect, round, from_client}
use tty_gateway.Core.Lifetime.{
  Actor, selecting, sending, over, Lifetime, is_held, settle, taken, give_turn,
}

-- The chunk that the SSH task waits to pass on.
abbrev pub held : Actor → Bytes
held (sending b) = b
held _ = []

-- A step that leaves the output where it is.
pub record Aside (l k : Lifetime) : Type 0 where
  pub same_printed : k.printed ≡ l.printed
  pub same_kept : k.kept ≡ l.kept
  pub same_output : k.output ≡ l.output
  pub same_inner : k.inner ≡ l.inner
  pub same_ingesting : k.ingesting ≡ l.ingesting
  pub same_held : held k.ssh ≡ held l.ssh
  pub still_over : l.ssh ≡ over → k.ssh ≡ over

pub unmoved : (l : Lifetime) → Aside l l
unmoved l = record {
  same_printed = refl;
  same_kept = refl;
  same_output = refl;
  same_inner = refl;
  same_ingesting = refl;
  same_held = refl;
  still_over = λ e. e;
}

-- The end of a round that had nothing to pass on.
pub settle-Aside :
    (l : Lifetime) (effects : List Effect) (pending : Option (ℕ × ℕ)) (more : Bool)
    → l.ssh ≡ selecting
    → Aside l (settle l (effects, pending, more))
unfolding settle
settle-Aside l effects pending true e = record {
  same_printed = refl;
  same_kept = refl;
  same_output = refl;
  same_inner = refl;
  same_ingesting = refl;
  same_held = ap held (sym e);
  still_over = λ o. absurd (cc (e, o));
}
settle-Aside l effects pending false e = record {
  same_printed = refl;
  same_kept = refl;
  same_output = refl;
  same_inner = refl;
  same_ingesting = refl;
  same_held = ap held (sym e);
  still_over = λ o. refl;
}

pub taken-Aside :
    (l : Lifetime) (queue : List SshInput) (written : Bool)
    → l.ssh ≡ selecting
    → Aside l (taken l queue written)
unfolding taken round
taken-Aside l [] written e = elim (Bool-cases (is_held l)) [
  | inl held_still ↦ rw held_still (unmoved l)
  | inr free ↦ rw free (settle-Aside l [] none false e)
]
taken-Aside l (i ∷ rest) written e =
    let a =
      settle-Aside (record l { input = rest }) (round (from_client i written)).0
        (round (from_client i written)).1 (round (from_client i written)).2 e in
    record {
      same_printed = a.same_printed;
      same_kept = a.same_kept;
      same_output = a.same_output;
      same_inner = a.same_inner;
      same_ingesting = a.same_ingesting;
      same_held = a.same_held;
      still_over = a.still_over;
    }

pub if-Aside : (l x y : Lifetime) (b : Bool) → Aside l x → Aside l y → Aside l (if b then x else y)
if-Aside l x y true p q = p
if-Aside l x y false p q = q

accepted-Aside :
    (l : Lifetime) (i : SshInput)
    → Aside l (record l { input = l.input ++ (i ∷ []); given = l.given ++ (i ∷ []) })
accepted-Aside l i = record {
  same_printed = refl;
  same_kept = refl;
  same_output = refl;
  same_inner = refl;
  same_ingesting = refl;
  same_held = refl;
  still_over = λ e. e;
}

pub give-Aside : (l : Lifetime) (a : Actor) (i : SshInput) → Aside l (give_turn l a i)
unfolding give_turn
give-Aside l over i = unmoved l
give-Aside l selecting i =
    if-Aside l _ l (ltb 0 l.holders) (if-Aside l _ l _ (accepted-Aside l i) (unmoved l)) (unmoved l)
give-Aside l (sending _) i =
    if-Aside l _ l (ltb 0 l.holders) (if-Aside l _ l _ (accepted-Aside l i) (unmoved l)) (unmoved l)

pub held_by : (n : ℕ) (l : Lifetime) → Aside l (record l { holders = n })
held_by n l = record {
  same_printed = refl;
  same_kept = refl;
  same_output = refl;
  same_inner = refl;
  same_ingesting = refl;
  same_held = refl;
  still_over = λ e. e;
}
