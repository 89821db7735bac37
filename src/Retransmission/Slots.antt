-- ===== src/Retransmission/Slots.antt =====
-- The representation invariant: the slots stand for consecutive sequence numbers, and neither the
-- first nor the last is blank.
use bifrost_sdk.Base.{
  ℕ, zero, suc, ◌+◌, ◌%◌, ◌≤◌, ◌<◌, ◌≡◌, Option, none, some, [], ◌∷◌, arith, length, get_elem?,
  Returns, u16_mod,
}
use bifrost_sdk.Retransmission.Defs.{Item, Slots, get_newest, drop_blanks, remove_oldest}

-- The slot at index i is blank or holds number n + i, modulo 2^16.
abbrev pub From : ℕ → Slots → Type 0
From n [] = Unit
From n (none ∷ r) = From (n + 1) r
From n (some it ∷ r) = (it.sequence_number ≡ n % u16_mod) × From (n + 1) r

-- The last slot, if there is one, is not blank.
abbrev pub Back : Slots → Type 0
Back [] = Unit
Back (none ∷ []) = ⊥
Back (some it ∷ []) = Unit
Back (x ∷ y ∷ r) = Back (y ∷ r)

-- The slots of a buffer in a state that the code can reach.
abbrev pub Shape : Slots → Type 0
Shape [] = Unit
Shape (none ∷ r) = ⊥
Shape (some it ∷ r) =
    (it.sequence_number < u16_mod) × From it.sequence_number (some it ∷ r) × Back (some it ∷ r)

pub From-mod : (n m : ℕ) (xs : Slots) → n % u16_mod ≡ m % u16_mod → From n xs → From m xs
From-mod n m [] e h = tt
From-mod n m (none ∷ r) e h = From-mod (n + 1) (m + 1) r (omega arith) h
From-mod n m (some it ∷ r) e h = (omega arith, From-mod (n + 1) (m + 1) r (omega arith) h.1)

pub Back-tail : (x : Option Item) (r : Slots) → Back (x ∷ r) → Back r
Back-tail x [] h = tt
Back-tail x (y ∷ r) h = h

pub drop_blanks-Shape : (n : ℕ) (xs : Slots) → From n xs → Back xs → Shape (drop_blanks xs)
unfolding drop_blanks
drop_blanks-Shape n [] h b = tt
drop_blanks-Shape n (none ∷ r) h b = drop_blanks-Shape (n + 1) r h (Back-tail none r b)
drop_blanks-Shape n (some it ∷ r) h b =
    (omega arith, From-mod n it.sequence_number (some it ∷ r) (omega arith) h, b)

pub length-drop_blanks : (xs : Slots) → length (drop_blanks xs) ≤ length xs
unfolding drop_blanks
length-drop_blanks [] = omega arith
length-drop_blanks (none ∷ r) = omega (arith, length-drop_blanks r)
length-drop_blanks (some it ∷ r) = omega arith

-- `RemoveOldest` on a well-formed buffer does not fault, and leaves it well-formed and smaller.
pub remove_oldest-Shape :
    (it : Item) (r : Slots)
    → Shape (some it ∷ r)
    → Returns (remove_oldest (some it ∷ r)) (λ ys. Shape ys × (length ys ≤ length r))
unfolding remove_oldest
remove_oldest-Shape it r h = (
  drop_blanks-Shape (it.sequence_number + 1) r h.1.1 (Back-tail (some it) r h.2),
  length-drop_blanks r,
)

-- The last slot holds the number that its index stands for.
pub get_newest-Back :
    (n : ℕ) (x : Option Item) (r : Slots)
    → From n (x ∷ r)
    → Back (x ∷ r)
    → Returns (get_newest (x ∷ r)) (λ it. it.sequence_number ≡ (n + length r) % u16_mod)
unfolding get_newest
get_newest-Back n none [] h b = absurd b
get_newest-Back n (some it) [] h b = omega arith
get_newest-Back n none (y ∷ r) h b =
    let e : n + 1 + length r ≡ n + suc (length r) = omega arith in
    rw (← e) (get_newest-Back (n + 1) y r h b)
get_newest-Back n (some it) (y ∷ r) h b =
    let e : n + 1 + length r ≡ n + suc (length r) = omega arith in
    rw (← e) (get_newest-Back (n + 1) y r h.1 b)

pub get_elem?-From :
    (n : ℕ) (xs : Slots) (i : ℕ) (it : Item)
    → From n xs
    → get_elem? xs i ≡ some (some it)
    → it.sequence_number ≡ (n + i) % u16_mod
get_elem?-From n [] i it h e = cc
get_elem?-From n (none ∷ r) zero it h e = ground arith
get_elem?-From n (some x ∷ r) zero it h e = ground arith
get_elem?-From n (none ∷ r) (suc i) it h e = omega (arith, get_elem?-From (n + 1) r i it h e)
get_elem?-From n (some x ∷ r) (suc i) it h e = omega (arith, get_elem?-From (n + 1) r i it h.1 e)
