-- ===== src/Seq/Tests.antt =====
-- The tests of the cyclic order at numbers on both sides of a wrap.
use bifrost_sdk.Base.{◌≡◌, refl, ◌-◌, true, false, u16_mod}
use bifrost_sdk.Seq.{max_value, is_seq_lower_than}

picture_id_max : max_value 16 15 ≡ 0x7fff
picture_id_max = refl

lower_over_the_wrap :
    (is_seq_lower_than (u16_mod - 1) 65535 0 ≡ true)
    × (is_seq_lower_than (u16_mod - 1) 0 32768 ≡ false)
    × (is_seq_lower_than (u16_mod - 1) 32768 0 ≡ true)
unfolding is_seq_lower_than
lower_over_the_wrap = (refl, refl, refl)
