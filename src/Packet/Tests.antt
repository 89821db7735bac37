-- ===== src/Packet/Tests.antt =====
-- Packets of a few bytes.
use bifrost_sdk.Base.{ℕ, ◌≡◌, refl, List, [], ◌∷◌, ◌++◌, some, Returns, inr, arith}
use bifrost_sdk.Packet.Parse.{
  ParsedPacket, parse, is_rtp, construct, parse_extension, parse_payload, parse_padding, read_u32,
}
use bifrost_sdk.Packet.Layout.{IsByte, Outcome, parse-Outcome}
use bifrost_sdk.Packet.Payload.{wire, IsHeader}
use bifrost_sdk.Packet.RoundTrip.{IsPadding, Carries, parse-Carries}

-- The fixed header after its first byte.
abbrev header : List ℕ
header = 96 ∷ 1 ∷ 0 ∷ 0 ∷ 0 ∷ 0 ∷ 0 ∷ 7 ∷ 0 ∷ 0 ∷ 0 ∷ []

-- With an extension of two bytes, by the length as the source reads it, and three bytes of payload.
abbrev extended : List ℕ
extended = 144 ∷ (header ++ (2 ∷ 0 ∷ 0 ∷ 0 ∷ 5 ∷ 5 ∷ 1 ∷ 2 ∷ 3 ∷ []))

parse-extended :
    parse extended
    ≡ some (
        some record {
          bytes = extended;
          size = 21;
          header_extension = some 12;
          payload = some 18;
          payload_length = 3;
          payload_padding = 0;
        })
unfolding parse is_rtp construct parse_extension parse_payload parse_padding read_u32
parse-extended = refl

parse-Outcome_example : Returns (parse extended) (Outcome extended)
parse-Outcome_example = parse-Outcome extended (unfold IsByte in ground arith) (omega arith)

-- One source, two bytes of payload and three of padding.
abbrev source : List ℕ
source = 9 ∷ 0 ∷ 0 ∷ 0 ∷ []

header-IsHeader : IsHeader 161 header source
unfolding IsHeader
header-IsHeader = (omega arith, omega arith, refl, refl, refl)

counted-IsPadding : IsPadding 161 (0 ∷ 0 ∷ 3 ∷ [])
unfolding IsPadding
counted-IsPadding = inr (refl, omega arith, refl)

parse-Carries_example :
    (q : ParsedPacket) × (parse (wire 161 header source (4 ∷ 5 ∷ 0 ∷ 0 ∷ 3 ∷ [])) ≡ some (some q))
    × Carries (wire 161 header source (4 ∷ 5 ∷ 0 ∷ 0 ∷ 3 ∷ [])) (4 ∷ 5 ∷ []) (0 ∷ 0 ∷ 3 ∷ []) q
parse-Carries_example =
    parse-Carries 161 header source (4 ∷ 5 ∷ []) (0 ∷ 0 ∷ 3 ∷ []) header-IsHeader counted-IsPadding
      (omega arith)
