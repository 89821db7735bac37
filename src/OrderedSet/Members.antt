-- ===== src/OrderedSet/Members.antt =====
-- What holds of every element of a set holds of every element that an operation leaves.
use bifrost_sdk.Base.{ℕ, Bool, List, [], ◌∷◌, arith, All}
use bifrost_sdk.OrderedSet.{emplace, erase, from_lower_bound}

module _ {ℓ} {A : Type ℓ} (key : A → ℕ) (lt : ℕ → ℕ → Bool) (P : A → Type 0) where
  pub All-emplace : (x : A) (ys : List A) → P x → All P ys → All P (emplace key lt x ys)
  unfolding emplace
  All-emplace x [] p h = (p, tt)
  All-emplace x (y ∷ ys) p h = ground (arith, All-emplace x ys p h.1)

  pub All-erase : (k : ℕ) (ys : List A) → All P ys → All P (erase key lt k ys)
  unfolding erase
  All-erase k [] h = tt
  All-erase k (y ∷ ys) h = ground (arith, All-erase k ys h.1)

  pub All-from_lower_bound : (k : ℕ) (ys : List A) → All P ys → All P (from_lower_bound key lt k ys)
  unfolding from_lower_bound
  All-from_lower_bound k [] h = tt
  All-from_lower_bound k (y ∷ ys) h = ground (arith, All-from_lower_bound k ys h.1)
