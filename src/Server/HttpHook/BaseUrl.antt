-- ===== src/Server/HttpHook/BaseUrl.antt =====
-- The base URL that `HttpAuthHook::new` keeps.
use tty_gateway.Base.{
  ℕ, ◌≡◌, refl, ap, Bool, false, Option, [], ◌∷◌, ◌++◌, Text, codes, All, arith, ◌==◌, Bool-cases,
  inl, inr,
}
use tty_gateway.Server.HttpHook.{slash, pop_slashes, keep_byte, strip_suffix, without_suffix, new}

pub ends_with_slash : Text → Bool
ends_with_slash [] = false
ends_with_slash (b ∷ []) = b == slash
ends_with_slash (b ∷ c ∷ cs) = ends_with_slash (c ∷ cs)

-- A text without its trailing slashes.
pub record Trimmed (s t : Text) : Type 0 where
  pub slashes : Text
  pub split : s ≡ t ++ slashes
  pub only : All (λ b. b ≡ slash) slashes
  pub none_left : ends_with_slash t ≡ false

keep_byte-Trimmed : (b : ℕ) (bs t : Text) → Trimmed bs t → Trimmed (b ∷ bs) (keep_byte b t)
unfolding keep_byte ends_with_slash
keep_byte-Trimmed b bs (c ∷ cs) h = record {
  slashes = h.slashes;
  split = ap (λ l. b ∷ l) h.split;
  only = h.only;
  none_left = h.none_left;
}
keep_byte-Trimmed b bs [] h = elim (Bool-cases (b == slash)) [
  | inl is ↦ rw is (record {
    slashes = b ∷ h.slashes;
    split = ap (λ l. b ∷ l) h.split;
    only = (ground (arith, is), h.only);
    none_left = refl;
  })
  | inr other ↦ rw other (record {
    slashes = h.slashes;
    split = ap (λ l. b ∷ l) h.split;
    only = h.only;
    none_left = other;
  })
]

pub pop_slashes-Trimmed : (s : Text) → Trimmed s (pop_slashes s)
unfolding pop_slashes ends_with_slash
pop_slashes-Trimmed [] = record { slashes = []; split = refl; only = tt; none_left = refl }
pop_slashes-Trimmed (b ∷ bs) = keep_byte-Trimmed b bs (pop_slashes bs) (pop_slashes-Trimmed bs)

-- The base that is kept is the given one, less a trailing `/v1/authorize`, less all slashes that it
-- then ends with, and nothing more.
pub new-Trimmed :
    (base : Text) (key : Option Text)
    → Trimmed (without_suffix base (strip_suffix (codes "/v1/authorize") base)) (new base key).base
unfolding new
new-Trimmed base key = pop_slashes-Trimmed _
