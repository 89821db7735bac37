-- ===== src/Wire.antt =====
-- `RTCUtils::Byte` of core/include/utils/utils.h: numbers in network order within bytes. A pointer with
-- a length is the list of these bytes, and a read behind the end is a fault. What a setter writes is
-- the list of its bytes, the highest first.
pub mod Laws
mod Tests
use bifrost_sdk.Base.{
  ℕ, ◌+◌, ◌*◌, ◌/◌, ◌%◌, ◌==◌, if◌then◌else◌, Option, some, ◌>>=◌, List, [], ◌∷◌, ◌++◌, get_elem?,
  u16_mod, u32_mod,
}

unfoldable pub get_1_byte : List ℕ → ℕ → Option ℕ
get_1_byte bytes i = get_elem? bytes i

unfoldable pub get_2_bytes : List ℕ → ℕ → Option ℕ
get_2_bytes bytes i =
    get_elem? bytes (i + 1) >>= λ b1. get_elem? bytes i >>= λ b0. some (b1 + b0 * 256)

unfoldable pub get_3_bytes : List ℕ → ℕ → Option ℕ
get_3_bytes bytes i = get_elem? bytes (i + 2) >>= λ b2.
    get_elem? bytes (i + 1) >>= λ b1. get_elem? bytes i >>= λ b0. some (b2 + b1 * 256 + b0 * 65536)

unfoldable pub get_4_bytes : List ℕ → ℕ → Option ℕ
get_4_bytes bytes i = get_elem? bytes (i + 3) >>= λ b3. get_elem? bytes (i + 2) >>= λ b2.
    get_elem? bytes (i + 1) >>= λ b1.
    get_elem? bytes i >>= λ b0. some (b3 + b2 * 256 + b1 * 65536 + b0 * 16777216)

unfoldable pub get_8_bytes : List ℕ → ℕ → Option ℕ
unfolding get_4_bytes
get_8_bytes bytes i =
    get_4_bytes bytes i >>= λ high. get_4_bytes bytes (i + 4) >>= λ low. some (high * u32_mod + low)

abbrev pub set_1_byte : ℕ → List ℕ
set_1_byte value = value % 256 ∷ []

abbrev pub set_2_bytes : ℕ → List ℕ
set_2_bytes value = value / 256 % 256 ∷ value % 256 ∷ []

abbrev pub set_3_bytes : ℕ → List ℕ
set_3_bytes value = value / 65536 % 256 ∷ value / 256 % 256 ∷ value % 256 ∷ []

abbrev pub set_4_bytes : ℕ → List ℕ
set_4_bytes value =
    value / 16777216 % 256 ∷ value / 65536 % 256 ∷ value / 256 % 256 ∷ value % 256 ∷ []

abbrev pub set_8_bytes : ℕ → List ℕ
set_8_bytes value = set_4_bytes (value / u32_mod) ++ set_4_bytes value

-- The two versions of `PadTo4Bytes`, for 16 and for 32 bits.
unfoldable pub pad_to_4_bytes_16 : ℕ → ℕ
pad_to_4_bytes_16 size = if size % 4 == 0 then size else (size / 4 * 4 + 4) % u16_mod

unfoldable pub pad_to_4_bytes_32 : ℕ → ℕ
pad_to_4_bytes_32 size = if size % 4 == 0 then size else (size / 4 * 4 + 4) % u32_mod
