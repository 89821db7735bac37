-- ===== src/Receiver/Report.antt =====
-- The receiver report of core/include/rtc/rtcp/receiver_report_packet.h, with its 24-bit field for the
-- lost packets, which holds a sign and a magnitude.
use bifrost_sdk.Base.{ℕ, zero, suc, ◌+◌, ◌-◌, ◌/◌, ◌%◌, ◌<◌, ◌≡◌, ◌==◌, ltb, if◌then◌else◌, arith}

-- A signed integer: n, or -(n + 1).
pub data ℤ : Type 0 where
  pos : ℕ → ℤ
  negsuc : ℕ → ℤ

-- -n
abbrev pub negate : ℕ → ℤ
negate zero = pos zero
negate (suc n) = negsuc n

-- The fields, each as its setter is given it; the 24 bits of `totalLost` as they are stored.
pub record ReceiverReport : Type 0 where
  pub ssrc : ℕ
  pub total_lost : ℕ
  pub fraction_lost : ℕ
  pub last_seq : ℕ
  pub jitter : ℕ
  pub last_sender_report : ℕ
  pub delay_since_last_sender_report : ℕ

-- `SetTotalLost`: the value that is stored. A magnitude from 2^23 on is cut.
unfoldable pub set_total_lost : ℤ → ℕ
set_total_lost (pos n) = if ltb 8388607 n then 8388607 else n
set_total_lost (negsuc n) = if ltb 8388608 (n + 1) then 8388608 else 8388608 + (n + 1) % 8388608

-- `GetTotalLost`: the highest bit is the sign; alone it stands for -2^23.
unfoldable pub get_total_lost : ℕ → ℤ
get_total_lost value =
    if value / 8388608 % 2 == 0
    then pos value
    else (if value == 8388608 then negate value else negate (value - 8388608))

-- The value that the field can hold nearest to a number.
abbrev pub clamped : ℤ → ℤ
clamped (pos n) = pos (if ltb 8388607 n then 8388607 else n)
clamped (negsuc n) = negsuc (if ltb 8388607 n then 8388607 else n)

-- Reading the field of lost packets after writing a number to it gives the number, cut to the range
-- from -2^23 to 2^23 - 1, and what is stored fits 24 bits.
pub get_total_lost-set :
    (x : ℤ) → (get_total_lost (set_total_lost x) ≡ clamped x) × (set_total_lost x < 16777216)
unfolding get_total_lost set_total_lost
get_total_lost-set (pos n) = ground arith
get_total_lost-set (negsuc n) = ground arith
