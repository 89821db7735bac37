-- ===== src/OrderedSet.antt =====
-- `std::set` and `std::map` with a comparison as their parameter: the elements in their order, each
-- with a key. The functions are those that the program calls. They agree with the library's on the
-- sets that the comparison orders, as the library demands; for the comparison of sequence numbers
-- these are the sets within half of the cycle.
pub mod Members
use bifrost_sdk.Base.{
  ℕ, ◌+◌, ◌≤◌, ◌<◌, ◌≡◌, Bool, true, false, not, ◌&&◌, if◌then◌else◌, Option, none, some, List, [],
  ◌∷◌, arith, length,
}

module _ {ℓ} {A : Type ℓ} (key : A → ℕ) (lt : ℕ → ℕ → Bool) where
  -- Neither of two keys is below the other.
  abbrev pub is_equivalent : ℕ → ℕ → Bool
  is_equivalent a b = not (lt a b) && not (lt b a)

  -- `emplace` and `insert`: an element with an equivalent key stays as it is.
  unfoldable pub emplace : A → List A → List A
  emplace x [] = x ∷ []
  emplace x (y ∷ ys) =
      if lt (key x) (key y)
      then x ∷ y ∷ ys
      else (if lt (key y) (key x) then y ∷ emplace x ys else y ∷ ys)

  unfoldable pub find : ℕ → List A → Option A
  find k [] = none
  find k (y ∷ ys) = if is_equivalent k (key y) then some y else find k ys

  -- `erase` of the iterator that `find` returns
  unfoldable pub erase : ℕ → List A → List A
  erase k [] = []
  erase k (y ∷ ys) = if is_equivalent k (key y) then ys else y ∷ erase k ys

  -- The elements from `lower_bound(k)` on: what `erase(begin(), lower_bound(k))` leaves.
  unfoldable pub from_lower_bound : ℕ → List A → List A
  from_lower_bound k [] = []
  from_lower_bound k (y ∷ ys) = if lt (key y) k then from_lower_bound k ys else y ∷ ys

  -- `lower_bound(k) != begin()`
  unfoldable pub starts_below : ℕ → List A → Bool
  starts_below k [] = false
  starts_below k (y ∷ ys) = lt (key y) k

  pub length-emplace : (x : A) (ys : List A) → length (emplace x ys) ≤ length ys + 1
  unfolding emplace
  length-emplace x [] = omega arith
  length-emplace x (y ∷ ys) = ground (arith, length-emplace x ys)

  pub length-erase : (k : ℕ) (ys : List A) → length (erase k ys) ≤ length ys
  unfolding erase
  length-erase k [] = omega arith
  length-erase k (y ∷ ys) = ground (arith, length-erase k ys)

  pub length-from_lower_bound : (k : ℕ) (ys : List A) → length (from_lower_bound k ys) ≤ length ys
  unfolding from_lower_bound
  length-from_lower_bound k [] = omega arith
  length-from_lower_bound k (y ∷ ys) = ground (arith, length-from_lower_bound k ys)

  -- Where the set starts below k, the erasure takes away one element at least.
  pub from_lower_bound_smaller :
      (k : ℕ) (ys : List A) → starts_below k ys ≡ true → length (from_lower_bound k ys) < length ys
  unfolding from_lower_bound starts_below
  from_lower_bound_smaller k [] h = cc
  from_lower_bound_smaller k (y ∷ ys) h = rw h (omega (arith, length-from_lower_bound k ys))
