-- ===== src/Base/Action/Keeps.antt =====
-- What an action does to the state, whether it succeeds or fails: a rule for each way to build one.
use mathlib.Core.Bool.{Bool, true, false}
use tty_gateway.Base.Tests.{if◌then◌else◌}
use tty_gateway.Base.Results.{Result, ok, err}
use tty_gateway.Base.Action.{Action, pure, raise, lift, continue, ◌>>=◌, failing}

-- A relation between an earlier and a later state.
pub record IsPreorder {S : Type 0} (R : S → S → Type 0) : Type 0 where
  pub same : (s : S) → R s s
  pub trans : (s t u : S) → R s t → R t u → R s u

pub record Keeps {E S A : Type 0} (R : S → S → Type 0) (m : Action E S A) : Type 0 where
  pub at : (s : S) → R s (m s).1

module _ {E S A : Type 0} {R : S → S → Type 0} where
  pub Keeps-pure : (a : A) → IsPreorder R → Keeps R (pure {E = E} a)
  unfolding pure
  Keeps-pure a pre = record { at = pre.same }

  pub Keeps-raise : (e : E) → IsPreorder R → Keeps R (raise {A = A} e)
  unfolding raise
  Keeps-raise e pre = record { at = pre.same }

  pub Keeps-lift : (r : Result E A) → IsPreorder R → Keeps R (lift r)
  unfolding lift
  Keeps-lift r pre = record { at = pre.same }

  pub Keeps-if :
      (b : Bool) (m n : Action E S A) → Keeps R m → Keeps R n → Keeps R (if b then m else n)
  Keeps-if true m n h k = h
  Keeps-if false m n h k = k

module _ {E F S A : Type 0} {R : S → S → Type 0} where
  pub Keeps-failing : (f : E → F) (m : Action E S A) → Keeps R m → Keeps R (failing f m)
  unfolding failing
  Keeps-failing f m h = record { at = h.at }

module _ {E S A B : Type 0} {R : S → S → Type 0} where
  continue-keeps :
      (r : Result E A) (f : A → Action E S B) (s t : S)
      → IsPreorder R
      → R s t
      → ((a : A) → Keeps R (f a))
      → R s (continue r f t).1
  continue-keeps (ok a) f s t pre h k = pre.trans s t (f a t).1 h ((k a).at t)
  continue-keeps (err e) f s t pre h k = h

  pub Keeps-bind :
      (m : Action E S A) (f : A → Action E S B)
      → IsPreorder R
      → Keeps R m
      → ((a : A) → Keeps R (f a))
      → Keeps R (m >>= f)
  unfolding ◌>>=◌
  Keeps-bind m f pre h k = record { at = λ s. continue-keeps (m s).0 f s (m s).1 pre (h.at s) k }

pub ruleset keeps_rules = (Keeps-pure, Keeps-raise, Keeps-lift, Keeps-if, Keeps-failing, Keeps-bind)
