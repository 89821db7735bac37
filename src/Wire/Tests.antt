-- ===== src/Wire/Tests.antt =====
-- Padding at concrete sizes.
use bifrost_sdk.Base.{◌≡◌, refl}
use bifrost_sdk.Wire.{pad_to_4_bytes_16, pad_to_4_bytes_32}

-- The padded size wraps with 16 bits.
pad_to_4_bytes_wraps : pad_to_4_bytes_16 65533 ≡ 0
unfolding pad_to_4_bytes_16
pad_to_4_bytes_wraps = refl

pad_to_4_bytes_pads : pad_to_4_bytes_32 65533 ≡ 65536
unfolding pad_to_4_bytes_32
pad_to_4_bytes_pads = refl
