-- ===== src/TcpBuffer/Bytes.antt =====
-- Byte vectors: a resize, a copy into the middle, and the bytes of a range.
use bifrost_sdk.Base.{
  take, ℕ, zero, suc, ◌+◌, ◌≤◌, ◌≡◌, refl, sym, ◌∙◌, ap, List, [], ◌∷◌, ◌++◌, length, drop,
  get_elem?, some, arith,
}

-- `std::vector::resize`: new bytes are 0.
abbrev pub resize : ℕ → List ℕ → List ℕ
resize zero xs = []
resize (suc n) [] = 0 ∷ resize n []
resize (suc n) (x ∷ xs) = x ∷ resize n xs

-- `std::copy` of ys to the index i. What would stand behind the end is lost.
abbrev pub overwrite : List ℕ → ℕ → List ℕ → List ℕ
overwrite [] i ys = []
overwrite (x ∷ xs) zero [] = x ∷ xs
overwrite (x ∷ xs) zero (y ∷ ys) = y ∷ overwrite xs zero ys
overwrite (x ∷ xs) (suc i) ys = x ∷ overwrite xs i ys

-- The n bytes from the index i on.
abbrev pub slice : List ℕ → ℕ → ℕ → List ℕ
slice xs i n = take n (drop i xs)

pub length-resize : (n : ℕ) (xs : List ℕ) → length (resize n xs) ≡ n
length-resize zero xs = refl
length-resize (suc n) [] = ap suc (length-resize n [])
length-resize (suc n) (x ∷ xs) = ap suc (length-resize n xs)

pub length-overwrite : (xs : List ℕ) (i : ℕ) (ys : List ℕ) → length (overwrite xs i ys) ≡ length xs
length-overwrite [] i ys = refl
length-overwrite (x ∷ xs) zero [] = refl
length-overwrite (x ∷ xs) zero (y ∷ ys) = ap suc (length-overwrite xs zero ys)
length-overwrite (x ∷ xs) (suc i) ys = ap suc (length-overwrite xs i ys)

pub length-slice : (xs : List ℕ) (i n : ℕ) → i + n ≤ length xs → length (slice xs i n) ≡ n
length-slice xs zero zero h = refl
length-slice [] zero (suc n) h = absurd (omega arith)
length-slice (x ∷ xs) zero (suc n) h = ap suc (length-slice xs zero n (omega arith))
length-slice [] (suc i) n h = absurd (omega arith)
length-slice (x ∷ xs) (suc i) n h = length-slice xs i n (omega arith)

take-overwrite :
    (xs ys : List ℕ) → length ys ≤ length xs → take (length ys) (overwrite xs 0 ys) ≡ ys
take-overwrite [] [] h = refl
take-overwrite [] (y ∷ ys) h = absurd (omega arith)
take-overwrite (x ∷ xs) [] h = refl
take-overwrite (x ∷ xs) (y ∷ ys) h = ap (◌∷◌ y) (take-overwrite xs ys (omega arith))

-- A copy to the end of a range extends the range by what was copied.
pub slice-overwrite :
    (xs ys : List ℕ) (i n : ℕ) {j k : ℕ}
    → j ≡ i + n
    → k ≡ n + length ys
    → j + length ys ≤ length xs
    → slice (overwrite xs j ys) i k ≡ slice xs i n ++ ys
slice-overwrite xs ys zero zero {j = j} {k = k} e f h =
    let e' : j ≡ 0 = omega arith in
    let f' : k ≡ length ys = omega arith in rw (e', f') (take-overwrite xs ys (omega arith))
slice-overwrite [] ys zero (suc n) e f h = absurd (omega arith)
slice-overwrite (x ∷ xs) ys zero (suc n) {j = zero} e f h = absurd (omega arith)
slice-overwrite (x ∷ xs) ys zero (suc n) {j = suc j} {k = zero} e f h = absurd (omega arith)
slice-overwrite (x ∷ xs) ys zero (suc n) {j = suc j} {k = suc k} e f h =
    ap (◌∷◌ x) (slice-overwrite xs ys zero n (omega arith) (omega arith) (omega arith))
slice-overwrite [] ys (suc i) n e f h = absurd (omega arith)
slice-overwrite (x ∷ xs) ys (suc i) n {j = zero} e f h = absurd (omega arith)
slice-overwrite (x ∷ xs) ys (suc i) n {j = suc j} e f h =
    slice-overwrite xs ys i n (omega arith) f (omega arith)

-- A resize keeps a range that fits.
pub slice-resize :
    (m : ℕ) (xs : List ℕ) (i n : ℕ)
    → i + n ≤ m
    → i + n ≤ length xs
    → slice (resize m xs) i n ≡ slice xs i n
slice-resize m xs zero zero h k = refl
slice-resize zero xs zero (suc n) h k = absurd (omega arith)
slice-resize (suc m) [] zero (suc n) h k = absurd (omega arith)
slice-resize (suc m) (x ∷ xs) zero (suc n) h k =
    ap (◌∷◌ x) (slice-resize m xs zero n (omega arith) (omega arith))
slice-resize zero xs (suc i) n h k = absurd (omega arith)
slice-resize (suc m) [] (suc i) n h k = absurd (omega arith)
slice-resize (suc m) (x ∷ xs) (suc i) n h k = slice-resize m xs i n (omega arith) (omega arith)

take-nil : (n : ℕ) → take {A = ℕ} n [] ≡ []
take-nil zero = refl
take-nil (suc n) = refl

drop-take : (xs : List ℕ) (m n : ℕ) {k : ℕ} → k ≡ m + n → drop m (take k xs) ≡ take n (drop m xs)
drop-take xs zero n {k = k} e = ap (λ l. take l xs) (omega arith)
drop-take [] (suc m) n {k = zero} e = absurd (omega arith)
drop-take [] (suc m) n {k = suc k} e = sym (take-nil n)
drop-take (x ∷ xs) (suc m) n {k = zero} e = absurd (omega arith)
drop-take (x ∷ xs) (suc m) n {k = suc k} e = drop-take xs m n (omega arith)

drop-drop : (xs : List ℕ) (i m : ℕ) {j : ℕ} → j ≡ i + m → drop m (drop i xs) ≡ drop j xs
drop-drop xs zero m {j = j} e = ap (λ l. drop l xs) (omega arith)
drop-drop [] (suc i) zero {j = zero} e = refl
drop-drop [] (suc i) (suc m) {j = zero} e = refl
drop-drop [] (suc i) zero {j = suc j} e = refl
drop-drop [] (suc i) (suc m) {j = suc j} e = refl
drop-drop (x ∷ xs) (suc i) m {j = zero} e = absurd (omega arith)
drop-drop (x ∷ xs) (suc i) m {j = suc j} e = drop-drop xs i m (omega arith)

-- The start of a range, and what is left behind it.
pub drop-slice :
    (xs : List ℕ) (i n m : ℕ) {j k : ℕ}
    → j ≡ i + m
    → k ≡ m + n
    → drop m (slice xs i k) ≡ slice xs j n
drop-slice xs i n m e f = drop-take (drop i xs) m n f ∙ ap (take n) (drop-drop xs i m e)

-- The first two bytes of a range.
pub slice-first :
    (xs : List ℕ) (i n : ℕ) {j x y : ℕ} {rest : List ℕ}
    → j ≡ i + 1
    → slice xs i n ≡ x ∷ y ∷ rest
    → (get_elem? xs i ≡ some x) × (get_elem? xs j ≡ some y)
slice-first [] zero zero f e = cc
slice-first [] zero (suc n) f e = cc
slice-first (a ∷ xs) zero zero f e = cc
slice-first (a ∷ []) zero (suc zero) f e = cc
slice-first (a ∷ []) zero (suc (suc n)) f e = cc
slice-first (a ∷ b ∷ xs) zero (suc zero) f e = cc
slice-first (a ∷ b ∷ xs) zero (suc (suc n)) f e = rw f (cc, cc)
slice-first [] (suc i) zero f e = cc
slice-first [] (suc i) (suc n) f e = cc
slice-first (a ∷ xs) (suc i) n {j = zero} f e = absurd (omega arith)
slice-first (a ∷ xs) (suc i) n {j = suc j} f e = slice-first xs i n (omega arith) e
