-- ===== src/Packet/Layout.antt =====
-- Where the parts of a parsed packet lie.
use bifrost_sdk.Base.{
  ℕ, zero, suc, ◌+◌, ◌*◌, ◌≤◌, ◌<◌, ◌≡◌, refl, ap, ◌⊎◌, inl, inr, Bool-cases, ltb, ◌==◌, Option,
  none, some, List, [], ◌∷◌, length, get_elem?, u32_mod, add64, sub64, All, Returns, Returns-bind,
  arith,
}
use bifrost_sdk.Packet.Parse.{
  header_size, ParsedPacket, csrc_count, extension, read_u32, is_rtp, unparsed, parse_padding,
  parse_payload, parse_extension, construct, parse,
}

unfoldable pub IsByte : ℕ → Type 0
IsByte b = b < 256

-- What is found lies within the packet: the extension's length field behind the fixed header and
-- the sources; the payload behind the header, with its length.
unfoldable pub HasExtension : ParsedPacket → Type 0
HasExtension q = elim q.header_extension [
  | none ↦ Unit
  | some i ↦ (header_size ≤ i) × (i + 4 ≤ length q.bytes)
]

unfoldable pub HasPayload : ParsedPacket → Type 0
HasPayload q = elim q.payload [
  | none ↦ q.payload_length ≡ 0
  | some i ↦ (header_size ≤ i) × (i + q.payload_length ≤ length q.bytes)
]

unfoldable pub IsWithin : List ℕ → ParsedPacket → Type 0
IsWithin bytes q = (q.bytes ≡ bytes) × HasExtension q × HasPayload q

pub get_elem?-IsByte :
    (xs : List ℕ) (i : ℕ) → All IsByte xs → i < length xs → Returns (get_elem? xs i) IsByte
get_elem?-IsByte [] i a h = absurd (omega arith)
get_elem?-IsByte (x ∷ xs) zero a h = a.0
get_elem?-IsByte (x ∷ xs) (suc i) a h = get_elem?-IsByte xs i a.1 (omega arith)

pub read_u32_lem :
    (bytes : List ℕ) (i : ℕ)
    → All IsByte bytes
    → i + 4 ≤ length bytes
    → Returns (read_u32 bytes i) (λ n. n < u32_mod)
unfolding read_u32 IsByte
read_u32_lem bytes i a h = ground (
  arith,
  get_elem?-IsByte bytes i a,
  get_elem?-IsByte bytes (i + 1) a,
  get_elem?-IsByte bytes (i + 2) a,
  get_elem?-IsByte bytes (i + 3) a,
)

parse_padding_lem :
    (q : ParsedPacket) (bytes : List ℕ) (first : ℕ)
    → All IsByte bytes
    → header_size ≤ length bytes
    → length bytes < u32_mod
    → q.payload_length < u32_mod
    → IsWithin bytes q
    → Returns (parse_padding q first) (IsWithin bytes)
unfolding parse_padding IsWithin HasPayload HasExtension IsByte
parse_padding_lem q bytes first a h k l w =
    ground (arith, get_elem?-IsByte bytes (sub64 (length bytes) 1) a)

parse_payload_lem :
    (q : ParsedPacket) (bytes : List ℕ) (first ptr : ℕ)
    → All IsByte bytes
    → header_size ≤ ptr
    → ptr ≤ length bytes
    → length bytes < u32_mod
    → q.bytes ≡ bytes
    → HasExtension q
    → Returns (parse_payload q first ptr) (IsWithin bytes)
unfolding parse_payload IsWithin HasPayload HasExtension
parse_payload_lem q bytes first ptr a h k l e x =
    let m : length q.bytes ≡ length bytes = ap length e in
    parse_padding_lem _ bytes first a (omega arith) l (omega arith)
      (e, x, (omega arith, omega arith))

parse_extension_lem :
    (bytes : List ℕ) (first ptr : ℕ)
    → All IsByte bytes
    → header_size ≤ ptr
    → ptr ≤ length bytes
    → length bytes < u32_mod
    → Returns (parse_extension (unparsed bytes) first ptr) (IsWithin bytes)
unfolding parse_extension IsWithin HasPayload HasExtension
parse_extension_lem bytes first ptr a h k l = elim (Bool-cases (extension first == 1)) [
  | inr e ↦ rw e (parse_payload_lem (unparsed bytes) bytes first ptr a h k l refl tt)
  | inl e ↦ elim (Bool-cases (ltb (length bytes) (add64 ptr 4))) [
    | inl t ↦ rw (e, t) (refl, tt, refl)
    | inr t ↦
        rw (e, t)
          (Returns-bind (read_u32 bytes ptr) _ (λ n. n < u32_mod) (IsWithin bytes)
            (read_u32_lem bytes ptr a (ground arith))
            (λ n _ b. ground (
              arith,
              parse_payload_lem (record (unparsed bytes) { header_extension = some ptr }) bytes
                  first (add64 ptr (add64 4 n)) a,
            )))
  ]
]

construct_lem :
    (bytes : List ℕ)
    → All IsByte bytes
    → header_size ≤ length bytes
    → length bytes < u32_mod
    → Returns (construct bytes) (IsWithin bytes)
unfolding construct IsWithin HasPayload HasExtension IsByte
construct_lem bytes a h k =
    Returns-bind (get_elem? bytes 0) _ IsByte (IsWithin bytes)
      (get_elem?-IsByte bytes 0 a (omega arith))
      (λ first _ b. ground (
        arith,
        parse_extension_lem bytes first header_size a (omega arith) h k,
        parse_extension_lem bytes first (header_size + csrc_count first * 4) a (omega arith),
      ))

-- What `Parse` may give: the null pointer for what is too short or has another first byte, and
-- otherwise a packet whose parts lie within the bytes.
unfoldable pub Outcome : List ℕ → Option ParsedPacket → Type 0
Outcome bytes none =
    (length bytes < header_size)
    ⊎ Returns (get_elem? bytes 0) (λ first. (first < 128) ⊎ (192 ≤ first))
Outcome bytes (some q) =
    IsWithin bytes q × Returns (get_elem? bytes 0) (λ first. (128 ≤ first) × (first < 192))

-- Parsing any bytes below 2^32 in number reads nothing out of them. It gives the null pointer only
-- for fewer than 12 bytes or a first byte outside of 128 to 191, else a packet: its extension has its
-- length field within the bytes, and its payload lies between the fixed header and the end, or there
-- is none and its length is 0.
pub parse-Outcome :
    (bytes : List ℕ)
    → All IsByte bytes
    → length bytes < u32_mod
    → Returns (parse bytes) (Outcome bytes)
unfolding parse is_rtp Outcome
parse-Outcome bytes a h = ground (arith, construct_lem bytes a, get_elem?-IsByte bytes 0 a)
