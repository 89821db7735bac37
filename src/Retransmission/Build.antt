-- ===== src/Retransmission/Build.antt =====
-- The ways in which an insertion extends the slots, each of which keeps their shape.
use bifrost_sdk.Base.{
  ℕ, zero, suc, ◌+◌, ◌%◌, ◌<◌, ◌≡◌, Option, none, some, [], ◌∷◌, ◌++◌, arith, length, set,
  replicate, u16_mod,
}
use bifrost_sdk.Retransmission.Defs.{Item, Slots}
use bifrost_sdk.Retransmission.Slots.{From, Back, Shape, From-mod, Back-tail}

-- Blank slots and then an item.
abbrev pub blanks_then : ℕ → Item → Slots
blanks_then k it = replicate k none ++ some it ∷ []

From-blanks_then :
    (n k : ℕ) (it : Item) → it.sequence_number ≡ (n + k) % u16_mod → From n (blanks_then k it)
From-blanks_then n zero it e = (omega arith, tt)
From-blanks_then n (suc k) it e = From-blanks_then (n + 1) k it (omega arith)

pub From-append :
    (n : ℕ) (xs : Slots) (k : ℕ) (it : Item)
    → From n xs
    → it.sequence_number ≡ (n + length xs + k) % u16_mod
    → From n (xs ++ blanks_then k it)
From-append n [] k it h e = From-blanks_then n k it (omega arith)
From-append n (none ∷ r) k it h e = From-append (n + 1) r k it h (omega arith)
From-append n (some x ∷ r) k it h e = (h.0, From-append (n + 1) r k it h.1 (omega arith))

Back-cons : (x : Option Item) (y : Option Item) (r : Slots) → Back (y ∷ r) → Back (x ∷ y ∷ r)
Back-cons none y r h = h
Back-cons (some it) y r h = h

Back-blanks_then : (k : ℕ) (it : Item) → Back (blanks_then k it)
Back-blanks_then zero it = tt
Back-blanks_then (suc zero) it = tt
Back-blanks_then (suc (suc k)) it = Back-blanks_then (suc k) it

pub Back-append : (xs : Slots) (k : ℕ) (it : Item) → Back (xs ++ blanks_then k it)
Back-append [] k it = Back-blanks_then k it
Back-append (x ∷ []) zero it = Back-cons x (some it) [] tt
Back-append (x ∷ []) (suc k) it =
    Back-cons x none (replicate k none ++ some it ∷ []) (Back-blanks_then (suc k) it)
Back-append (x ∷ y ∷ r) k it = Back-cons x y (r ++ blanks_then k it) (Back-append (y ∷ r) k it)

-- Appending blanks and an item with the number that follows keeps the shape.
pub append-Shape :
    (old : Item) (r : Slots) (k : ℕ) (it : Item)
    → Shape (some old ∷ r)
    → it.sequence_number ≡ (old.sequence_number + suc (length r) + k) % u16_mod
    → Shape ((some old ∷ r) ++ blanks_then k it)
append-Shape old r k it h e = (
  h.0,
  From-append old.sequence_number (some old ∷ r) k it h.1 e,
  Back-append (some old ∷ r) k it,
)

From-prepend : (n k : ℕ) (xs : Slots) → From (n + k) xs → From n (replicate k none ++ xs)
From-prepend n zero xs h = From-mod (n + 0) n xs (omega arith) h
From-prepend n (suc k) xs h =
    From-prepend (n + 1) k xs (From-mod (n + suc k) (n + 1 + k) xs (omega arith) h)

Back-prepend :
    (x : Option Item) (k : ℕ) (it : Item) (r : Slots)
    → Back (some it ∷ r)
    → Back (x ∷ (replicate k none ++ some it ∷ r))
Back-prepend x zero it r h = Back-cons x (some it) r h
Back-prepend x (suc k) it r h =
    Back-cons x none (replicate k none ++ some it ∷ r) (Back-prepend none k it r h)

pub prepend-Shape :
    (old : Item) (r : Slots) (k : ℕ) (it : Item)
    → Shape (some old ∷ r)
    → it.sequence_number < u16_mod
    → old.sequence_number ≡ (it.sequence_number + suc k) % u16_mod
    → Shape (some it ∷ (replicate k none ++ some old ∷ r))
prepend-Shape old r k it h l e = (
  l,
  (
    omega arith,
    From-prepend (it.sequence_number + 1) k (some old ∷ r) (
        From-mod old.sequence_number (it.sequence_number + 1 + k) (some old ∷ r) (omega arith) h.1),
  ),
  Back-prepend (some it) k old r h.2,
)

From-set :
    (n : ℕ) (xs : Slots) (i : ℕ) (it : Item)
    → From n xs
    → it.sequence_number ≡ (n + i) % u16_mod
    → From n (set xs i (some it))
From-set n [] i it h e = tt
From-set n (none ∷ r) zero it h e = (omega arith, h)
From-set n (some x ∷ r) zero it h e = (omega arith, h.1)
From-set n (none ∷ r) (suc i) it h e = From-set (n + 1) r i it h (omega arith)
From-set n (some x ∷ r) (suc i) it h e = (h.0, From-set (n + 1) r i it h.1 (omega arith))

Back-set : (xs : Slots) (i : ℕ) (it : Item) → Back xs → Back (set xs i (some it))
Back-set [] i it h = tt
Back-set (x ∷ []) zero it h = tt
Back-set (x ∷ []) (suc i) it h = h
Back-set (x ∷ y ∷ r) zero it h = Back-tail x (y ∷ r) h
Back-set (x ∷ y ∷ r) (suc zero) it h = Back-cons x (some it) r (Back-set (y ∷ r) zero it h)
Back-set (x ∷ y ∷ r) (suc (suc i)) it h =
    Back-cons x y (set r i (some it)) (Back-set (y ∷ r) (suc i) it h)

-- Filling a slot behind the first with the number that it stands for keeps the shape.
pub set-Shape :
    (old : Item) (r : Slots) (i : ℕ) (it : Item)
    → Shape (some old ∷ r)
    → it.sequence_number ≡ (old.sequence_number + suc i) % u16_mod
    → Shape (set (some old ∷ r) (suc i) (some it))
set-Shape old r i it h e = (
  h.0,
  From-set old.sequence_number (some old ∷ r) (suc i) it h.1 e,
  Back-set (some old ∷ r) (suc i) it h.2,
)
