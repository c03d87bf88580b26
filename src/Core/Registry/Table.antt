-- ===== src/Core/Registry/Table.antt =====
-- A map up to the order of its entries, which a `HashMap` does not promise: what is known of it is what
-- `get` answers for each key, and how many entries there are.
use mathlib.Core.Quot
use mathlib.Core.Quot.{Quot, Quot-set}
use tty_gateway.Base.{
  ℕ, suc, ◌≡◌, refl, sym, ap, Option, none, some, [], ◌∷◌, arith, length, if◌then◌else◌,
}
use tty_gateway.Base.Map.{
  Map, Eq, get, get-insert, get-remove, remove_absent, IsDistinct, insert-IsDistinct,
  remove-IsDistinct, length-insert_absent, length-remove,
}
use tty_gateway.Base.Map

-- No key has two entries.
abbrev pub Entries {ℓ} : (K : Type ℓ) ⦃e : Eq K⦄ → Type ℓ
Entries K = (m : Map K ℕ) × IsDistinct m

module _ {ℓ} {K : Type ℓ} ⦃e : Eq K⦄ where
  abbrev pub SameLookups : Entries K → Entries K → Type ℓ
  SameLookups a b = (k : K) → get a.0 k ≡ get b.0 k

  -- A key that is not there is not found after the removal of another.
  rest-get :
      (m n : Map K ℕ) (k : K) (v : ℕ)
      → get m k ≡ none
      → ((j : K) → get ((k, v) ∷ m) j ≡ get n j)
      → (j : K) → get m j ≡ get (Map.remove n k) j
  unfolding get
  rest-get m n k v absent same j = ground (arith, same j, get-remove n k j, e.beq_iff k j)

  no_entry : (n : Map K ℕ) → ((j : K) → none ≡ get n j) → n ≡ []
  unfolding get
  no_entry [] h = refl
  no_entry ((k, v) ∷ n) h = ground (arith, h k, e.beq_iff k k)

  -- The number of entries is determined by the answers of `get`.
  pub length-SameLookups :
      (m n : Map K ℕ)
      → IsDistinct m
      → IsDistinct n
      → ((k : K) → get m k ≡ get n k)
      → length m ≡ length n
  unfolding get
  length-SameLookups [] n d c same = ap length (sym (no_entry n same))
  length-SameLookups ((k, v) ∷ m) n d c same =
      let found : get n k ≡ some v = ground (arith, same k, e.beq_iff k k) in
      let rest =
        length-SameLookups m (Map.remove n k) d.1 (remove-IsDistinct n k c)
          (rest-get m n k v d.0 same) in
      ground (arith, rest, length-remove n k v c found)

  pub insert-SameLookups :
      (m n : Map K ℕ) (k : K) (v : ℕ)
      → ((j : K) → get m j ≡ get n j)
      → (j : K) → get (Map.insert m k v) j ≡ get (Map.insert n k v) j
  insert-SameLookups m n k v same j = ground (arith, get-insert m k j v, get-insert n k j v, same j)

  pub remove-SameLookups :
      (m n : Map K ℕ) (k : K)
      → ((j : K) → get m j ≡ get n j)
      → (j : K) → get (Map.remove m k) j ≡ get (Map.remove n k) j
  remove-SameLookups m n k same j = ground (arith, get-remove m k j, get-remove n k j, same j)

abbrev pub Table {ℓ} : (K : Type ℓ) ⦃e : Eq K⦄ → Type ℓ
Table K = Quot (SameLookups {K = K})

module _ {ℓ} {K : Type ℓ} ⦃e : Eq K⦄ where
  abbrev pub of_entries : Entries K → Table K
  of_entries = Quot.mk

  abbrev pub empty : Table K
  empty = of_entries ([], tt)

  unfoldable pub lookup : Table K → K → Option ℕ
  lookup t k = Quot.lift (hlevel) (λ a. get a.0 k) (λ a b h. h k) t

  unfoldable pub size : Table K → ℕ
  size = Quot.lift (hlevel) (λ a. length a.0) (λ a b h. length-SameLookups a.0 b.0 a.1 b.1 h)

  unfoldable pub put : K → ℕ → Table K → Table K
  put k v =
      Quot.lift Quot-set (λ a. of_entries (Map.insert a.0 k v, insert-IsDistinct a.0 k v a.1))
        λ a b h. Quot.sound (insert-SameLookups a.0 b.0 k v h)

  unfoldable pub drop : K → Table K → Table K
  drop k =
      Quot.lift Quot-set (λ a. of_entries (Map.remove a.0 k, remove-IsDistinct a.0 k a.1))
        λ a b h. Quot.sound (remove-SameLookups a.0 b.0 k h)

  -- Two tables that answer every key alike are equal.
  pub ext : (x y : Table K) → ((k : K) → lookup x k ≡ lookup y k) → x ≡ y
  unfolding lookup
  ext = Quot.ind (λ _. hlevel Quot-set) λ a. Quot.ind (λ _. hlevel Quot-set) λ b. Quot.sound

  pub lookup-empty : (k : K) → lookup empty k ≡ none
  unfolding lookup get
  lookup-empty k = refl

  pub lookup-put :
      (k : K) (v : ℕ) (x : Table K) (j : K)
      → lookup (put k v x) j ≡ (if e.beq k j then some v else lookup x j)
  unfolding lookup put
  lookup-put k v x j =
      Quot.ind {β = λ x. lookup (put k v x) j ≡ (if e.beq k j then some v else lookup x j)}
        (λ _. hlevel) (λ a. get-insert a.0 k j v) x

  pub lookup-drop :
      (k : K) (x : Table K) (j : K) → lookup (drop k x) j ≡ (if e.beq k j then none else lookup x j)
  unfolding lookup drop
  lookup-drop k x j =
      Quot.ind {β = λ x. lookup (drop k x) j ≡ (if e.beq k j then none else lookup x j)}
        (λ _. hlevel) (λ a. get-remove a.0 k j) x

  pub size-put : (k : K) (v : ℕ) (x : Table K) → lookup x k ≡ none → size (put k v x) ≡ suc (size x)
  unfolding lookup size put
  size-put k v = Quot.ind (λ _. hlevel) (λ a. length-insert_absent a.0 k v)

  pub size-drop :
      (k : K) (v : ℕ) (x : Table K) → lookup x k ≡ some v → size x ≡ suc (size (drop k x))
  unfolding lookup size drop
  size-drop k v = Quot.ind (λ _. hlevel) (λ a. length-remove a.0 k v a.1)

pub size-empty {ℓ} : (K : Type ℓ) ⦃e : Eq K⦄ → size (empty {K = K}) ≡ 0
unfolding size
size-empty K = refl
