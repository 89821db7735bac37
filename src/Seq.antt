-- ===== src/Seq.antt =====
-- The cyclic order on sequence numbers of core/src/rtc/seq_manager.cpp: `SeqLowerThan` and
-- `SeqHigherThan`, over `MaxValue`. The differences of the source are taken only where they are
-- positive, so that neither the promotion of a small T to int nor an unsigned wrap is seen.
pub mod Order
mod Tests
use bifrost_sdk.Base.{ℕ, ◌-◌, ◌/◌, ◌^◌, Bool, ◌&&◌, ◌||◌, ltb, leb, ◌==◌, if◌then◌else◌}

-- `MaxValue` of `SeqManager<T, N>`, for a T of `bits` bits
abbrev pub max_value : ℕ → ℕ → ℕ
max_value bits n = if n == 0 then 2 ^ bits - 1 else 2 ^ n - 1

module _ (max : ℕ) where
  unfoldable pub is_seq_lower_than : ℕ → ℕ → Bool
  is_seq_lower_than lhs rhs =
      (ltb lhs rhs && leb (rhs - lhs) (max / 2)) || (ltb rhs lhs && ltb (max / 2) (lhs - rhs))

  unfoldable pub is_seq_higher_than : ℕ → ℕ → Bool
  is_seq_higher_than lhs rhs =
      (ltb rhs lhs && leb (lhs - rhs) (max / 2)) || (ltb lhs rhs && ltb (max / 2) (rhs - lhs))
