-- ===== src/Base/Map.antt =====
-- `std::collections::HashMap` as far as the program uses it: `get`, `insert`, `remove` and `len`.
-- The program never iterates over a map, so the order of the entries is not modelled.
use Prim.Native.Nat.{ℕ, suc}
use mathlib.Core.Path.{◌≡◌, refl}
use mathlib.Core.Logic.{◌↔◌}
use mathlib.Core.Bool.{Bool, true, false}
use mathlib.Core.Option.{Option, none, some}
use mathlib.Core.List.{List, [], ◌∷◌}
use native.Mathlib.Omega.{arith}
use tty_gateway.Base.Tests.{if◌then◌else◌, ==_iff, Bool-cases}
use tty_gateway.Base.Tests
use tty_gateway.Base.Lists.{length}

-- Equality of keys.
pub record Eq {ℓ} (K : Type ℓ) : Type ℓ where
  pub beq : K → K → Bool
  pub beq_iff : (a b : K) → (beq a b ≡ true) ↔ (a ≡ b)

abbrev pub Map {ℓ κ} : Type ℓ → Type κ → Type (ℓ ⊔ κ)
Map K V = List (K × V)

module _ {ℓ κ} {K : Type ℓ} {V : Type κ} ⦃e : Eq K⦄ where
  unfoldable pub get : Map K V → K → Option V
  get [] k = none
  get ((j, v) ∷ m) k = if e.beq j k then some v else get m k

  unfoldable pub remove : Map K V → K → Map K V
  remove [] k = []
  remove ((j, v) ∷ m) k = let rest = remove m k in if e.beq j k then rest else (j, v) ∷ rest

  unfoldable pub insert : Map K V → K → V → Map K V
  insert m k v = (k, v) ∷ remove m k

  pub get-remove :
      (m : Map K V) (k j : K) → get (remove m k) j ≡ (if e.beq k j then none else get m j)
  unfolding get remove
  get-remove [] k j = ground arith
  get-remove ((i, v) ∷ m) k j =
      ground (arith, get-remove m k j, e.beq_iff i k, e.beq_iff i j, e.beq_iff k j)

  pub get-insert :
      (m : Map K V) (k j : K) (v : V)
      → get (insert m k v) j ≡ (if e.beq k j then some v else get m j)
  unfolding get insert
  get-insert m k j v = ground (arith, get-remove m k j)

  -- Removing an absent key changes nothing.
  pub remove_absent : (m : Map K V) (k : K) → get m k ≡ none → remove m k ≡ m
  unfolding get remove
  remove_absent [] k h = refl
  remove_absent ((i, v) ∷ m) k h = ground (arith, remove_absent m k)

module _ {ℓ κ} {K : Type ℓ} {V : Type κ} ⦃e : Eq K⦄ where
  -- A new key can be taken back.
  pub remove-insert : (m : Map K V) (k : K) (v : V) → get m k ≡ none → remove (insert m k v) k ≡ m
  unfolding insert remove
  remove-insert m k v h = ground (arith, remove_absent m k h, e.beq_iff k k)

module _ {ℓ κ} {K : Type ℓ} {V : Type κ} ⦃e : Eq K⦄ where
  -- No key has two entries.
  abbrev pub IsDistinct : Map K V → Type κ
  IsDistinct [] = Unit {κ}
  IsDistinct ((k, v) ∷ m) = (get m k ≡ none) × IsDistinct m

  pub remove-IsDistinct : (m : Map K V) (k : K) → IsDistinct m → IsDistinct (remove m k)
  unfolding remove
  remove-IsDistinct [] k d = tt
  remove-IsDistinct ((i, v) ∷ m) k d =
      ground (arith, remove-IsDistinct m k, get-remove m k i, e.beq_iff i k, e.beq_iff k i)

  pub length-insert_absent :
      (m : Map K V) (k : K) (v : V) → get m k ≡ none → length (insert m k v) ≡ suc (length m)
  unfolding insert
  length-insert_absent m k v h = rw (remove_absent m k h)

  pub insert-IsDistinct : (m : Map K V) (k : K) (v : V) → IsDistinct m → IsDistinct (insert m k v)
  unfolding insert
  insert-IsDistinct m k v d =
      (ground (arith, get-remove m k k, e.beq_iff k k), remove-IsDistinct m k d)

  -- `len` falls by one when a key that is there is removed.
  pub length-remove :
      (m : Map K V) (k : K) (v : V)
      → IsDistinct m
      → get m k ≡ some v
      → length m ≡ suc (length (remove m k))
  unfolding get remove
  length-remove [] k v d h = ground arith
  length-remove ((i, w) ∷ m) k v d h =
      ground (arith, length-remove m k v, remove_absent m k, e.beq_iff i k)

pub get-empty {ℓ κ} : {K : Type ℓ} {V : Type κ} ⦃e : Eq K⦄ (k : K) → get {V = V} [] k ≡ none
unfolding get
get-empty k = refl

instance abbrev pub nat_eq : Eq ℕ
nat_eq = record { beq = Tests.◌==◌; beq_iff = ==_iff }

abbrev pub beq_bytes : List ℕ → List ℕ → Bool
beq_bytes [] [] = true
beq_bytes (x ∷ xs) (y ∷ ys) = if Tests.◌==◌ x y then beq_bytes xs ys else false
beq_bytes _ _ = false

beq_bytes→eq : (a b : List ℕ) → beq_bytes a b ≡ true → a ≡ b
beq_bytes→eq [] [] h = refl
beq_bytes→eq [] (y ∷ ys) h = ground arith
beq_bytes→eq (x ∷ xs) [] h = ground arith
beq_bytes→eq (x ∷ xs) (y ∷ ys) h = ground (arith, beq_bytes→eq xs ys)

beq_bytes_refl : (a : List ℕ) → beq_bytes a a ≡ true
beq_bytes_refl [] = refl
beq_bytes_refl (x ∷ xs) = ground (arith, beq_bytes_refl xs)

pub beq_bytes_iff : (a b : List ℕ) → (beq_bytes a b ≡ true) ↔ (a ≡ b)
beq_bytes_iff a b = (beq_bytes→eq a b, λ h. rw h (beq_bytes_refl b))

instance abbrev pub bytes_eq : Eq (List ℕ)
bytes_eq = record { beq = beq_bytes; beq_iff = beq_bytes_iff }
