-- ===== src/Seq/Order.antt =====
-- In which sense `is_seq_lower_than` orders the sequence numbers 0 .. max.
use bifrost_sdk.Base.{
  ℕ, ◌+◌, ◌-◌, ◌/◌, ◌≤◌, ◌<◌, ◌≡◌, ◌≢◌, ◌⊎◌, true, false, arith, leb, if◌then◌else◌, u16_mod,
  u32_mod, sub16, sub32,
}
use bifrost_sdk.Seq.{is_seq_lower_than, is_seq_higher_than}

-- How many steps lead forward from a to b, round the cycle 0 .. max.
abbrev pub distance : ℕ → ℕ → ℕ → ℕ
distance max a b = if leb a b then b - a else b + (max + 1) - a

module _ (max : ℕ) where
  pub higher-eq-lower : (a b : ℕ) → is_seq_higher_than max a b ≡ is_seq_lower_than max b a
  unfolding is_seq_higher_than is_seq_lower_than
  higher-eq-lower a b = ground arith

  pub lower_irrefl : (a : ℕ) → is_seq_lower_than max a a ≡ false
  unfolding is_seq_lower_than
  lower_irrefl a = ground arith

  -- Any two sequence numbers are equal, or exactly one of the two tests holds of them.
  pub seq_trichotomy :
      (a b : ℕ)
      → ((a ≡ b) × (is_seq_lower_than max a b ≡ false) × (is_seq_higher_than max a b ≡ false))
        ⊎ ((a ≢ b) × (is_seq_lower_than max a b ≡ true) × (is_seq_higher_than max a b ≡ false))
        ⊎ ((a ≢ b) × (is_seq_lower_than max a b ≡ false) × (is_seq_higher_than max a b ≡ true))
  unfolding is_seq_higher_than is_seq_lower_than
  seq_trichotomy a b = ground arith

  -- What the test says of the distance round the cycle.
  pub lower_of_distance :
      (a b : ℕ) → b ≤ max → a ≢ b → distance max a b ≤ max / 2 → is_seq_lower_than max a b ≡ true
  unfolding is_seq_lower_than
  lower_of_distance a b hb ne h = ground arith

  pub not_lower_of_distance :
      (a b : ℕ) → a ≤ max → max / 2 + 1 < distance max a b → is_seq_lower_than max a b ≡ false
  unfolding is_seq_lower_than
  not_lower_of_distance a b ha h = ground arith

  pub distance_of_lower :
      (a b : ℕ)
      → b ≤ max
      → is_seq_lower_than max a b ≡ true
      → (a ≢ b) × (distance max a b ≤ max / 2 + 1)
  unfolding is_seq_lower_than
  distance_of_lower a b hb h = ground arith

  -- The order is transitive as long as the three numbers lie within half of the cycle.
  pub lower_trans :
      (a b c : ℕ)
      → b ≤ max
      → c ≤ max
      → is_seq_lower_than max a b ≡ true
      → is_seq_lower_than max b c ≡ true
      → distance max a b + distance max b c ≤ max / 2
      → is_seq_lower_than max a c ≡ true
  unfolding is_seq_lower_than
  lower_trans a b c hb hc h k d = ground arith

pub distance-u16 : (a b : ℕ) → a < u16_mod → b < u16_mod → distance (u16_mod - 1) a b ≡ sub16 b a
distance-u16 a b ha hb = ground arith

pub distance-u32 : (a b : ℕ) → a < u32_mod → b < u32_mod → distance (u32_mod - 1) a b ≡ sub32 b a
distance-u32 a b ha hb = ground arith
