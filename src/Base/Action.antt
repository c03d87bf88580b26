-- ===== src/Base/Action.antt =====
-- `async fn`s that may fail with `?`: an action takes the state and returns a result and the state
-- that it leaves, also beside an error.
pub mod Keeps
pub mod Succeeds
use tty_gateway.Base.Results.{Result, ok, err, map_err}

abbrev pub Action : Type 0 → Type 0 → Type 0 → Type 0
Action E S A = S → Result E A × S

module _ {E S A : Type 0} where
  unfoldable pub pure : A → Action E S A
  pure a s = (ok a, s)

  unfoldable pub raise : E → Action E S A
  raise e s = (err e, s)

  unfoldable pub lift : Result E A → Action E S A
  lift r s = (r, s)

module _ {E F S A : Type 0} where
  unfoldable pub failing : (E → F) → Action E S A → Action F S A
  failing f m s = let (r, s') = m s in (map_err f r, s')

module _ {E S A B : Type 0} where
  abbrev pub continue : Result E A → (A → Action E S B) → S → Result E B × S
  continue (ok a) f s = f a s
  continue (err e) f s = (err e, s)

  infixl 5 ◌>>=◌ ◌>>◌
  -- Opening this opens the actions above too.
  unfoldable pub ◌>>=◌ : Action E S A → (A → Action E S B) → Action E S B
  unfolding pure raise lift failing
  ◌>>=◌ m f s = let (r, s') = m s in continue r f s'

  abbrev pub ◌>>◌ : Action E S A → Action E S B → Action E S B
  m >> k = m >>= λ _. k
