-- ===== src/Packet/RoundTrip.antt =====
-- What `Parse` recovers of a packet that was put together from its parts.
use bifrost_sdk.Base.{
  ℕ, ◌+◌, ◌-◌, ◌≤◌, ◌<◌, ◌≡◌, refl, ap, ◌∙◌, ◌⊎◌, inl, inr, false, ltb, ◌==◌, ◌||◌, some, List, [],
  ◌∷◌, ◌++◌, length, get_elem?, drop, length-append, get_elem?-append, u32_mod, sub64, sub32, arith,
}
use bifrost_sdk.Packet.Parse.{header_size, ParsedPacket, padding, parse_padding, parse}
use bifrost_sdk.Packet.Payload.{
  wire, IsHeader, length-wire, drop-wire, get_elem?-wire, unpadded, parse-wire,
}

-- No padding and its bit clear, or padding whose last byte is its length.
unfoldable pub IsPadding : ℕ → List ℕ → Type 0
IsPadding first pad =
    ((padding first ≡ 0) × (pad ≡ []))
    ⊎ ((padding first ≡ 1)
        × (length pad < 256)
        × (get_elem? pad (length pad - 1) ≡ some (length pad)))

-- The packet's payload pointer and lengths are those of the payload and of the padding.
unfoldable pub Carries : List ℕ → List ℕ → List ℕ → ParsedPacket → Type 0
Carries bytes payload pad q =
    (i : ℕ) × (q.payload ≡ some i)
    × (drop i bytes ≡ payload ++ pad)
    × (q.payload_length ≡ length payload)
    × (q.payload_padding ≡ length pad)

get_elem?-positive :
    (pad : List ℕ) (n : ℕ) → get_elem? pad (n - 1) ≡ some n → length pad ≡ n → 1 ≤ n
get_elem?-positive [] n e l = cc
get_elem?-positive (x ∷ xs) n e l = omega arith

module _ (first : ℕ) (header csrc payload pad : List ℕ) where
  parse_padding-padded :
      (v : IsHeader first header csrc)
      → length (wire first header csrc (payload ++ pad)) < u32_mod
      → padding first ≡ 1
      → length pad < 256
      → get_elem? pad (length pad - 1) ≡ some (length pad)
      → parse_padding (unpadded first header csrc (payload ++ pad) v) first
        ≡ some (record (unpadded first header csrc (payload ++ pad) v) {
          payload_padding = length pad;
          payload_length = length payload;
        })
  unfolding parse_padding unpadded IsHeader
  parse_padding-padded v h o s e =
      let n = get_elem?-positive pad (length pad) e refl in
      let l = length-wire first header csrc (payload ++ pad) v in
      let m = length-append payload pad in
      let g =
        get_elem?-wire first header csrc (payload ++ pad) v (length payload + (length pad - 1))
          {i = sub64 (length (wire first header csrc (payload ++ pad))) 1} (omega arith)
        ∙ get_elem?-append payload pad (length pad - 1) refl
        ∙ e in
      let z : (length (payload ++ pad) == 0) ≡ false = ground arith in
      let y : ((length pad == 0) || ltb (length (payload ++ pad)) (length pad)) ≡ false =
        ground arith in
      let x : sub32 (length (payload ++ pad)) (length pad) ≡ length payload = omega arith in
      rw (o, z) (rw g (rw (y, x) refl))

  parse_padding-plain :
      (v : IsHeader first header csrc)
      → padding first ≡ 0
      → parse_padding (unpadded first header csrc (payload ++ pad) v) first
        ≡ some (unpadded first header csrc (payload ++ pad) v)
  unfolding parse_padding
  parse_padding-plain v o = rw o refl

  -- A packet below 2^32 bytes whose first byte has the version, no extension and the right number of
  -- sources, and the padding bit exactly if padding follows whose last byte is its length, is parsed
  -- without a fault into a packet that points at the payload, with the lengths of the payload and of
  -- the padding.
  pub parse-Carries :
      IsHeader first header csrc
      → IsPadding first pad
      → length (wire first header csrc (payload ++ pad)) < u32_mod
      → (q : ParsedPacket) × (parse (wire first header csrc (payload ++ pad)) ≡ some (some q))
        × Carries (wire first header csrc (payload ++ pad)) payload pad q
  unfolding IsPadding Carries unpadded
  parse-Carries v (inl n) h =
      let d = drop-wire first header csrc (payload ++ pad) v in
      let m = length-append payload pad in
      let k : length pad ≡ 0 = ap length n.1 in
      (
        unpadded first header csrc (payload ++ pad) v,
        rw (parse-wire first header csrc (payload ++ pad) v h, parse_padding-plain v n.0) refl,
        (header_size + length csrc, refl, d, omega arith, omega arith),
      )
  parse-Carries v (inr n) h = (
    record (unpadded first header csrc (payload ++ pad) v) {
      payload_padding = length pad;
      payload_length = length payload;
    },
    rw (parse-wire first header csrc (payload ++ pad) v h, parse_padding-padded v h n.0 n.1 n.2)
        refl,
    (header_size + length csrc, refl, drop-wire first header csrc (payload ++ pad) v, refl, refl),
  )
