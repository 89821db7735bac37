-- ===== src/Packet/Payload.antt =====
-- A packet put together from its parts, and parsed.
use bifrost_sdk.Base.{
  ℕ, ◌+◌, ◌-◌, ◌*◌, ◌%◌, ◌≤◌, ◌<◌, ◌≡◌, refl, ◌∙◌, true, false, ltb, ◌==◌, some, ◌>>=◌, List, ◌∷◌,
  ◌++◌, length, get_elem?, drop, Bool-cases, inl, inr, length-append, get_elem?-append, drop-append,
  u32_mod, sub64, arith,
}
use bifrost_sdk.Packet.Parse.{
  header_size, ParsedPacket, csrc_count, extension, is_rtp, unparsed, parse_padding, parse_payload,
  parse_extension, construct, parse,
}

-- The bytes on the wire: the first one, the rest of the fixed header, the contributing sources and
-- what follows.
abbrev pub wire : ℕ → List ℕ → List ℕ → List ℕ → List ℕ
wire first header csrc rest = first ∷ (header ++ (csrc ++ rest))

-- The first byte announces the sources, and no extension.
unfoldable pub IsHeader : ℕ → List ℕ → List ℕ → Type 0
IsHeader first header csrc =
    (128 ≤ first)
    × (first < 192)
    × (extension first ≡ 0)
    × (length header ≡ header_size - 1)
    × (length csrc ≡ csrc_count first * 4)

module _ (first : ℕ) (header csrc rest : List ℕ) (v : IsHeader first header csrc) where
  pub length-wire : length (wire first header csrc rest) ≡ header_size + length csrc + length rest
  unfolding IsHeader
  length-wire = omega (arith, length-append header (csrc ++ rest), length-append csrc rest)

  pub drop-wire : drop (header_size + length csrc) (wire first header csrc rest) ≡ rest
  unfolding IsHeader
  drop-wire =
      drop-append (first ∷ header) (csrc ++ rest) (length csrc) (omega arith)
      ∙ drop-append csrc rest 0 (omega arith)

  pub get_elem?-wire :
      (j : ℕ) {i : ℕ}
      → i ≡ header_size + length csrc + j
      → get_elem? (wire first header csrc rest) i ≡ get_elem? rest j
  unfolding IsHeader
  get_elem?-wire j e =
      get_elem?-append (first ∷ header) (csrc ++ rest) (length csrc + j) (omega arith)
      ∙ get_elem?-append csrc rest j (omega arith)

  is_rtp-wire : is_rtp (wire first header csrc rest) ≡ some true
  unfolding IsHeader is_rtp
  is_rtp-wire = ground (arith, length-wire)

  -- The packet before its padding is read.
  unfoldable pub unpadded : ParsedPacket
  unpadded = record (unparsed (wire first header csrc rest)) {
    payload = some (header_size + length csrc);
    payload_length = length rest;
  }

  parse_payload-wire :
      length (wire first header csrc rest) < u32_mod
      → parse_payload (unparsed (wire first header csrc rest)) first (header_size + length csrc)
        ≡ parse_padding unpadded first
  unfolding parse_payload unpadded
  parse_payload-wire h =
      let l = length-wire in
      let e : sub64 (length (wire first header csrc rest)) (header_size + length csrc) % u32_mod
          ≡ length rest =
        omega arith in
      rw e refl

  parse_extension-wire :
      length (wire first header csrc rest) < u32_mod
      → parse_extension (unparsed (wire first header csrc rest)) first (header_size + length csrc)
        ≡ parse_padding unpadded first
  unfolding parse_extension IsHeader
  parse_extension-wire h = rw (v.2) (parse_payload-wire h)

  construct-wire :
      length (wire first header csrc rest) < u32_mod
      → construct (wire first header csrc rest) ≡ parse_padding unpadded first
  unfolding construct IsHeader
  construct-wire h =
      let l = length-wire in
      let c : header_size + csrc_count first * 4 ≡ header_size + length csrc = omega arith in
      elim (Bool-cases (csrc_count first == 0)) [
        | inl e ↦
            let z : header_size + length csrc ≡ header_size = ground arith in
            rw e (rw (← z) (parse_extension-wire h))
        | inr e ↦
            let z : ltb (length (wire first header csrc rest)) (header_size + length csrc) ≡ false =
              ground arith in
            rw (e, c, z) (parse_extension-wire h)
      ]

  pub parse-wire :
      length (wire first header csrc rest) < u32_mod
      → parse (wire first header csrc rest) ≡ (parse_padding unpadded first >>= λ q. some (some q))
  unfolding parse
  parse-wire h = rw (is_rtp-wire, construct-wire h) refl
