-- ===== src/Wire/Laws.antt =====
-- What is set is read back, and reads within the bytes give numbers within their widths.
use bifrost_sdk.Base.{
  ℕ, zero, suc, ◌+◌, ◌≤◌, ◌<◌, ◌≡◌, ap, some, List, [], ◌∷◌, ◌++◌, get_elem?, length, All, Returns,
  u16_mod, u32_mod, u64_mod, arith,
}
use bifrost_sdk.Wire.{
  get_1_byte, get_2_bytes, get_3_bytes, get_4_bytes, get_8_bytes, set_1_byte, set_2_bytes,
  set_3_bytes, set_4_bytes, set_8_bytes,
}

abbrev pub IsByte : ℕ → Type 0
IsByte b = b < 256

pub get_elem?-IsByte :
    (xs : List ℕ) (i : ℕ) → All IsByte xs → i < length xs → Returns (get_elem? xs i) IsByte
get_elem?-IsByte [] i a h = absurd (omega arith)
get_elem?-IsByte (x ∷ xs) zero a h = a.0
get_elem?-IsByte (x ∷ xs) (suc i) a h = get_elem?-IsByte xs i a.1 (omega arith)

module _ (xs : List ℕ) (i : ℕ) (a : All IsByte xs) where
  pub get_1_byte_lem : i + 1 ≤ length xs → Returns (get_1_byte xs i) (λ n. n < 256)
  unfolding get_1_byte
  get_1_byte_lem h = get_elem?-IsByte xs i a (omega arith)

  pub get_2_bytes_lem : i + 2 ≤ length xs → Returns (get_2_bytes xs i) (λ n. n < u16_mod)
  unfolding get_2_bytes
  get_2_bytes_lem h = ground (arith, get_elem?-IsByte xs i a, get_elem?-IsByte xs (i + 1) a)

  pub get_3_bytes_lem : i + 3 ≤ length xs → Returns (get_3_bytes xs i) (λ n. n < 16777216)
  unfolding get_3_bytes
  get_3_bytes_lem h =
      ground (
        arith,
        get_elem?-IsByte xs i a,
        get_elem?-IsByte xs (i + 1) a,
        get_elem?-IsByte xs (i + 2) a,
      )

  pub get_4_bytes_lem : i + 4 ≤ length xs → Returns (get_4_bytes xs i) (λ n. n < u32_mod)
  unfolding get_4_bytes
  get_4_bytes_lem h = ground (
    arith,
    get_elem?-IsByte xs i a,
    get_elem?-IsByte xs (i + 1) a,
    get_elem?-IsByte xs (i + 2) a,
    get_elem?-IsByte xs (i + 3) a,
  )

-- Every number is read back from what its setter wrote, whatever follows.
pub get-set_bytes :
    (v : ℕ) (rest : List ℕ)
    → (v < 256 → get_1_byte (set_1_byte v ++ rest) 0 ≡ some v)
      × (v < u16_mod → get_2_bytes (set_2_bytes v ++ rest) 0 ≡ some v)
      × (v < 16777216 → get_3_bytes (set_3_bytes v ++ rest) 0 ≡ some v)
      × (v < u32_mod → get_4_bytes (set_4_bytes v ++ rest) 0 ≡ some v)
      × (v < u64_mod → get_8_bytes (set_8_bytes v ++ rest) 0 ≡ some v)
unfolding get_1_byte get_2_bytes get_3_bytes get_4_bytes get_8_bytes
get-set_bytes v rest = (
  λ h. ap some (omega arith),
  λ h. ap some (omega arith),
  λ h. ap some (omega arith),
  λ h. ap some (omega arith),
  λ h. ap some (omega arith),
)
