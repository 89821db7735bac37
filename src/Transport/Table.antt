-- ===== src/Transport/Table.antt =====
-- Tables of streams under numbers that are all different, with what holds of each stream.
use bifrost_sdk.Base.{ℕ, ◌≡◌, refl, none, some, List, [], ◌∷◌, arith}
use bifrost_sdk.Transport.Defs.{find_stream, update_stream, erase_stream}

module _ {A : Type 0} where
  abbrev pub IsTable : (ℕ → A → Type 0) → List (ℕ × A) → Type 0
  IsTable P [] = Unit {0}
  IsTable P (x ∷ xs) = (find_stream x.0 xs ≡ none) × P x.0 x.1 × IsTable P xs

  find-update_stream-none :
      (j k : ℕ) (a : A) (xs : List (ℕ × A))
      → find_stream j xs ≡ none
      → find_stream j (update_stream k a xs) ≡ none
  unfolding find_stream update_stream
  find-update_stream-none j k a [] e = refl
  find-update_stream-none j k a (x ∷ xs) e = ground (arith, find-update_stream-none j k a xs)

  find-erase_stream-none :
      (j k : ℕ) (xs : List (ℕ × A))
      → find_stream j xs ≡ none
      → find_stream j (erase_stream k xs) ≡ none
  unfolding find_stream erase_stream
  find-erase_stream-none j k [] e = refl
  find-erase_stream-none j k (x ∷ xs) e = ground (arith, find-erase_stream-none j k xs)

module _ {A : Type 0} (P : ℕ → A → Type 0) where
  pub find-IsTable :
      (k : ℕ) (a : A) (xs : List (ℕ × A)) → IsTable P xs → find_stream k xs ≡ some a → P k a
  unfolding find_stream
  find-IsTable k a [] t e = ground arith
  find-IsTable k a (x ∷ xs) t e = ground (arith, t, find-IsTable k a xs)

  pub update-IsTable :
      (k : ℕ) (a : A) (xs : List (ℕ × A)) → IsTable P xs → P k a → IsTable P (update_stream k a xs)
  unfolding update_stream
  update-IsTable k a [] t p = tt
  update-IsTable k a (x ∷ xs) t p =
      ground (arith, t, p, update-IsTable k a xs, find-update_stream-none x.0 k a xs)

  pub erase-IsTable : (k : ℕ) (xs : List (ℕ × A)) → IsTable P xs → IsTable P (erase_stream k xs)
  unfolding erase_stream
  erase-IsTable k [] t = tt
  erase-IsTable k (x ∷ xs) t =
      ground (arith, t, erase-IsTable k xs, find-erase_stream-none x.0 k xs)
