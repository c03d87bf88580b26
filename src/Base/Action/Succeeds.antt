-- ===== src/Base/Action/Succeeds.antt =====
-- What a chain of calls that has returned went through.
use tty_gateway.Base.{◌≡◌, refl, arith}
use tty_gateway.Base.Results.{Result, ok, err, map_err}
use tty_gateway.Base.Action.{Action, continue, ◌>>=◌}

module _ {E S A B : Type 0} where
  continue-ok :
      (r : Result E A) (f : A → Action E S B) (s : S) (b : B)
      → (continue r f s).0 ≡ ok b
      → (a : A) × (r ≡ ok a) × ((f a s).0 ≡ ok b)
  continue-ok (ok a) f s b h = (a, refl, h)
  continue-ok (err e) f s b h = absurd (ground arith)

  pub bind-ok :
      (m : Action E S A) (f : A → Action E S B) (s : S) (b : B)
      → ((m >>= f) s).0 ≡ ok b
      → (a : A) × ((m s).0 ≡ ok a) × ((f a (m s).1).0 ≡ ok b)
  unfolding ◌>>=◌
  bind-ok m f s b h = continue-ok (m s).0 f (m s).1 b h

  continue-returns :
      (r : Result E A) (f : A → Action E S B) (s : S) (b : B)
      → (continue r f s).0 ≡ ok b
      → (a : A) × (r ≡ ok a) × (continue r f s ≡ f a s)
  continue-returns (ok a) f s b h = (a, refl, refl)
  continue-returns (err e) f s b h = absurd (ground arith)

  -- The whole run is that of the rest.
  pub bind-returns :
      (m : Action E S A) (f : A → Action E S B) (s : S) (b : B)
      → ((m >>= f) s).0 ≡ ok b
      → (a : A) × ((m s).0 ≡ ok a) × ((m >>= f) s ≡ f a (m s).1)
  unfolding ◌>>=◌
  bind-returns m f s b h = continue-returns (m s).0 f (m s).1 b h

module _ {E F A : Type 0} where
  pub map_err-ok : (f : E → F) (r : Result E A) (a : A) → map_err f r ≡ ok a → r ≡ ok a
  map_err-ok f (ok x) a h = ground (arith, h)
  map_err-ok f (err e) a h = absurd (ground arith)

pub ok_injective : (E A : Type 0) (a b : A) → Path (Result E A) (ok a) (ok b) → a ≡ b
ok_injective E A a b h = ground (arith, h)
