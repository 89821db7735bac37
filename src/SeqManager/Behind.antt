-- ===== src/SeqManager/Behind.antt =====
-- Lists of dropped inputs that lie behind a number, and what the operations of the set do there.
use bifrost_sdk.Base.{
  ℕ, zero, suc, ◌+◌, ◌-◌, ◌%◌, ◌≤◌, ◌<◌, ◌≡◌, refl, ap, ◌≢◌, none, List, [], ◌∷◌, ◌++◌, length,
  u16_mod, add16, arith, All,
}
use bifrost_sdk.Seq.{is_seq_lower_than, is_seq_higher_than}
use bifrost_sdk.OrderedSet.{emplace, find, from_lower_bound}
use bifrost_sdk.SeqManager.Defs.{seq_key, clear_loop}

abbrev pub max16 : ℕ
max16 = u16_mod - 1

-- The n numbers that follow x.
abbrev pub following : ℕ → ℕ → List ℕ
following x zero = []
following x (suc n) = add16 x 1 ∷ following (add16 x 1) n

-- `xs` are the numbers from x + 1 up to x + n.
abbrev pub Behind : ℕ → ℕ → ℕ → Type 0
Behind n x y = (y < u16_mod) × (y ≢ x) × ((x + u16_mod - y) % u16_mod ≤ n)

pub emplace_last :
    (x : ℕ) (ys : List ℕ)
    → x < u16_mod
    → All (Behind 32767 x) ys
    → emplace seq_key (is_seq_lower_than max16) x ys ≡ ys ++ x ∷ []
unfolding emplace is_seq_lower_than
emplace_last x [] l h = refl
emplace_last x (y ∷ ys) l h = ground (arith, emplace_last x ys l h.1)

-- Numbers at most so far behind x that none of them counts as higher.
abbrev pub Near : ℕ → List ℕ → Type 0
Near x ys = All (λ y. (y < u16_mod) × ((x + u16_mod - y) % u16_mod ≤ 32767)) ys

pub clear_loop_keeps : (x : ℕ) (ys : List ℕ) → x < u16_mod → Near x ys → clear_loop max16 x ys ≡ ys
unfolding clear_loop is_seq_higher_than
clear_loop_keeps x [] l h = refl
clear_loop_keeps x (y ∷ ys) l h = ground arith

pub find-Behind :
    (x : ℕ) (ys : List ℕ)
    → x < u16_mod
    → All (Behind 32767 x) ys
    → find seq_key (is_seq_lower_than max16) x ys ≡ none
unfolding find is_seq_lower_than
find-Behind x [] l h = refl
find-Behind x (y ∷ ys) l h = ground (arith, find-Behind x ys l h.1)

pub from_lower_bound-Behind :
    (x : ℕ) (ys : List ℕ)
    → x < u16_mod
    → All (Behind 32767 x) ys
    → from_lower_bound seq_key (is_seq_lower_than max16) x ys ≡ []
unfolding from_lower_bound is_seq_lower_than
from_lower_bound-Behind x [] l h = refl
from_lower_bound-Behind x (y ∷ ys) l h = ground (arith, from_lower_bound-Behind x ys l h.1)

pub Behind-next :
    (n x : ℕ) (ys : List ℕ)
    → n < 32767
    → x < u16_mod
    → All (Behind n x) ys
    → All (Behind (n + 1) (add16 x 1)) (ys ++ x ∷ [])
Behind-next n x [] l h a = (ground arith, tt)
Behind-next n x (y ∷ ys) l h a = (ground arith, Behind-next n x ys l h a.1)

pub Behind-weaken : (n m x : ℕ) (ys : List ℕ) → n ≤ m → All (Behind n x) ys → All (Behind m x) ys
Behind-weaken n m x [] l a = tt
Behind-weaken n m x (y ∷ ys) l a = (ground arith, Behind-weaken n m x ys l a.1)

pub Near-append :
    (x : ℕ) (ys : List ℕ) → x < u16_mod → All (Behind 32767 x) ys → Near x (ys ++ x ∷ [])
Near-append x [] l a = (ground arith, tt)
Near-append x (y ∷ ys) l a = (ground arith, Near-append x ys l a.1)

pub All-following :
    (n k x y : ℕ)
    → x < u16_mod
    → y ≡ (x + n + 1 + k) % u16_mod
    → n + k ≤ 32766
    → All (Behind 32767 y) (following x n)
All-following zero k x y h e l = tt
All-following (suc n) k x y h e l =
    (ground arith, All-following n k (add16 x 1) y (omega arith) (omega arith) (omega arith))

pub Near-Behind : (x : ℕ) (ys : List ℕ) → x < u16_mod → All (Behind 32767 x) ys → Near x ys
Near-Behind x [] l a = tt
Near-Behind x (y ∷ ys) l a = ((a.0.0, a.0.2), Near-Behind x ys l a.1)

pub length-following : (n x : ℕ) → length (following x n) ≡ n
length-following zero x = refl
length-following (suc n) x = ap suc (length-following n (add16 x 1))
