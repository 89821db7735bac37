-- ===== src/Rtcp/Safety.antt =====
-- Parsing reads nothing out of the bytes, ends, and gives fields within their widths.
use bifrost_sdk.Base.{
  ℕ, zero, suc, ◌%◌, ◌≤◌, ◌<◌, ◌≡◌, ◌⊎◌, inl, inr, false, Bool-cases, ltb, ◌==◌, Option, none, some,
  ◌>>=◌, List, [], ◌∷◌, length, drop, take, All, All-drop, All-take, length-drop, u16_mod, u32_mod,
  Returns, Returns-bind, arith,
}
use bifrost_sdk.Wire.{get_1_byte, get_2_bytes, get_4_bytes}
use bifrost_sdk.Wire.Laws.{
  IsByte, get_1_byte_lem, get_2_bytes_lem, get_3_bytes_lem, get_4_bytes_lem,
}
use bifrost_sdk.Receiver.Report.{ReceiverReport}
use bifrost_sdk.Rtcp.Defs.{
  SenderReport, NackItem, RtcpPacket, sender_report_packet, receiver_report_packet, nack_packet,
  common_header_size, receiver_report_size, type_sr, type_rr, type_rtpfb,
}
use bifrost_sdk.Rtcp.Parse.{
  sender_report_at, receiver_report_at, parse_sender_report, parse_receiver_report,
  parse_sender_report_packet, parse_reports, parse_receiver_report_packet, parse_item, parse_items,
  parse_items_packet, parse_feedback, is_rtcp, packet_length, parse_by_type, parse_one, parse_loop,
  parse,
}

-- Fields within their widths.
abbrev pub IsSenderReport : SenderReport → Type 0
IsSenderReport r =
    (r.ssrc < u32_mod)
    × (r.ntp_sec < u32_mod)
    × (r.ntp_frac < u32_mod)
    × (r.rtp_ts < u32_mod)
    × (r.packet_count < u32_mod)
    × (r.octet_count < u32_mod)

abbrev pub IsReceiverReport : ReceiverReport → Type 0
IsReceiverReport r =
    (r.ssrc < u32_mod)
    × (r.fraction_lost < 256)
    × (r.total_lost < 16777216)
    × (r.last_seq < u32_mod)
    × (r.jitter < u32_mod)
    × (r.last_sender_report < u32_mod)
    × (r.delay_since_last_sender_report < u32_mod)

abbrev pub IsItem : NackItem → Type 0
IsItem i = (i.packet_id < u16_mod) × (i.lost_packet_bitmask < u16_mod)

abbrev pub IsPacket : RtcpPacket → Type 0
IsPacket (sender_report_packet reports) = All IsSenderReport reports × (length reports ≤ 1)
IsPacket (receiver_report_packet ssrc reports) =
    (ssrc < u32_mod) × All IsReceiverReport reports × (length reports ≤ 31)
IsPacket (nack_packet sender media items) =
    (sender < u32_mod) × (media < u32_mod) × All IsItem items

-- Of a result with a null pointer, what holds of a packet.
abbrev pub OrNull {ℓ} : {A : Type ℓ} → (A → Type 0) → Option A → Type 0
OrNull P none = Unit {0}
OrNull P (some a) = P a

module _ (bytes : List ℕ) (a : All IsByte bytes) where
  sender_report_at_lem : 24 ≤ length bytes → Returns (sender_report_at bytes) IsSenderReport
  unfolding sender_report_at
  sender_report_at_lem h = ground (
    arith,
    get_4_bytes_lem bytes 0 a,
    get_4_bytes_lem bytes 4 a,
    get_4_bytes_lem bytes 8 a,
    get_4_bytes_lem bytes 12 a,
    get_4_bytes_lem bytes 16 a,
    get_4_bytes_lem bytes 20 a,
  )

  receiver_report_at_lem : 24 ≤ length bytes → Returns (receiver_report_at bytes) IsReceiverReport
  unfolding receiver_report_at
  receiver_report_at_lem h = ground (
    arith,
    get_4_bytes_lem bytes 0 a,
    get_1_byte_lem bytes 4 a,
    get_3_bytes_lem bytes 5 a,
    get_4_bytes_lem bytes 8 a,
    get_4_bytes_lem bytes 12 a,
    get_4_bytes_lem bytes 16 a,
    get_4_bytes_lem bytes 20 a,
  )

  parse_sender_report_lem : Returns (parse_sender_report bytes) (OrNull IsSenderReport)
  unfolding parse_sender_report
  parse_sender_report_lem = ground (arith, sender_report_at_lem)

  parse_receiver_report_lem : Returns (parse_receiver_report bytes) (OrNull IsReceiverReport)
  unfolding parse_receiver_report
  parse_receiver_report_lem = ground (arith, receiver_report_at_lem)

  parse_item_lem : Returns (parse_item bytes) (OrNull IsItem)
  unfolding parse_item
  parse_item_lem = ground (arith, get_2_bytes_lem bytes 0 a, get_2_bytes_lem bytes 2 a)

  is_rtcp_lem : Returns (is_rtcp bytes) (λ ok. (ok ≡ false) ⊎ (common_header_size ≤ length bytes))
  unfolding is_rtcp
  is_rtcp_lem = ground (arith, get_1_byte_lem bytes 0 a, get_1_byte_lem bytes 1 a)

parse_sender_report_packet_lem :
    (bytes : List ℕ)
    → All IsByte bytes
    → Returns (parse_sender_report_packet bytes) (OrNull IsPacket)
unfolding parse_sender_report_packet
parse_sender_report_packet_lem bytes a = ground (
  arith,
  parse_sender_report_lem (drop common_header_size bytes)
      (All-drop IsByte common_header_size bytes a),
)

parse_reports_lem :
    (count : ℕ) (bytes : List ℕ)
    → All IsByte bytes
    → Returns (parse_reports count bytes) (λ rs. All IsReceiverReport rs × (length rs ≤ count))
unfolding parse_reports
parse_reports_lem zero bytes a = (tt, omega arith)
parse_reports_lem (suc count) [] a = (tt, omega arith)
parse_reports_lem (suc count) (b ∷ bytes) a = ground (
  arith,
  parse_receiver_report_lem (b ∷ bytes) a,
  parse_reports_lem count (drop receiver_report_size (b ∷ bytes))
      (All-drop IsByte receiver_report_size (b ∷ bytes) a),
)

parse_receiver_report_packet_lem :
    (bytes : List ℕ)
    → All IsByte bytes
    → Returns (parse_receiver_report_packet bytes) (OrNull IsPacket)
unfolding parse_receiver_report_packet
parse_receiver_report_packet_lem bytes a = elim (Bool-cases (ltb (length bytes) 8)) [
  | inl e ↦ rw e tt
  | inr e ↦ rw e (
      Returns-bind (get_4_bytes bytes 4) _ (λ n. n < u32_mod) (OrNull IsPacket)
        (get_4_bytes_lem bytes 4 a (ground arith))
        λ ssrc _ s.
          Returns-bind (get_1_byte bytes 0) _ (λ n. n < 256) (OrNull IsPacket)
            (get_1_byte_lem bytes 0 a (ground arith))
            λ first _ f.
              Returns-bind (parse_reports (first % 32) (drop 8 bytes)) _
                (λ rs. All IsReceiverReport rs × (length rs ≤ first % 32)) (OrNull IsPacket)
                (parse_reports_lem (first % 32) (drop 8 bytes) (All-drop IsByte 8 bytes a))
                λ rs _ r. (s, r.0, omega arith))
]

parse_items_lem :
    (fuel : ℕ) (bytes : List ℕ)
    → All IsByte bytes
    → length bytes ≤ fuel
    → Returns (parse_items fuel bytes) (All IsItem)
unfolding parse_items
parse_items_lem fuel [] a h = tt
parse_items_lem zero (b ∷ bytes) a h = absurd (omega arith)
parse_items_lem (suc fuel) (b ∷ bytes) a h =
    let l : length (drop 3 bytes) ≤ fuel = omega (arith, length-drop 3 bytes) in
    let ih = parse_items_lem fuel (drop 3 bytes) (All-drop IsByte 3 bytes a.1) l in
    Returns-bind (parse_item (b ∷ bytes)) _ (OrNull IsItem) (All IsItem)
      (parse_item_lem (b ∷ bytes) a) λ parsed _ q. after parsed q ih
  where
    after :
        (parsed : Option NackItem)
        → OrNull IsItem parsed
        → Returns (parse_items fuel (drop 3 bytes)) (All IsItem)
        → Returns
            (elim parsed as (λ _. Option (List NackItem)) [
              | none ↦ some []
              | some item ↦ parse_items fuel (drop 3 bytes) >>= λ items. some (item ∷ items)
            ])
            (All IsItem)
    after none q ih = tt
    after (some item) q ih =
        Returns-bind (parse_items fuel (drop 3 bytes)) (λ items. some (item ∷ items)) (All IsItem)
          (All IsItem) ih (λ items _ rest. (q, rest))

parse_items_packet_lem :
    (bytes : List ℕ) → All IsByte bytes → Returns (parse_items_packet bytes) (OrNull IsPacket)
unfolding parse_items_packet
parse_items_packet_lem bytes a = elim (Bool-cases (ltb (length bytes) 12)) [
  | inl e ↦ rw e tt
  | inr e ↦ rw e (
      Returns-bind (get_4_bytes bytes 4) _ (λ n. n < u32_mod) (OrNull IsPacket)
        (get_4_bytes_lem bytes 4 a (ground arith))
        λ sender _ s.
          Returns-bind (get_4_bytes bytes 8) _ (λ n. n < u32_mod) (OrNull IsPacket)
            (get_4_bytes_lem bytes 8 a (ground arith))
            λ media _ m.
              Returns-bind (parse_items (length bytes) (drop 12 bytes)) _ (All IsItem)
                (OrNull IsPacket)
                (parse_items_lem (length bytes) (drop 12 bytes) (All-drop IsByte 12 bytes a)
                  (omega (arith, length-drop 12 bytes)))
                λ items _ r. (s, m, r))
]

parse_feedback_lem :
    (bytes : List ℕ) → All IsByte bytes → Returns (parse_feedback bytes) (OrNull IsPacket)
unfolding parse_feedback
parse_feedback_lem bytes a =
    ground (arith, get_1_byte_lem bytes 0 a, parse_items_packet_lem bytes a)

parse_by_type_lem :
    (packet_type : ℕ) (bytes : List ℕ) (current : Option RtcpPacket)
    → All IsByte bytes
    → OrNull IsPacket current
    → Returns (parse_by_type packet_type bytes current) (OrNull IsPacket)
unfolding parse_by_type
parse_by_type_lem packet_type bytes current a c =
    let sr = parse_sender_report_packet_lem bytes a in
    let rr = parse_receiver_report_packet_lem bytes a in
    let fb = parse_feedback_lem bytes a in
    elim (Bool-cases (packet_type == type_sr)) [
      | inl e ↦ rw e sr
      | inr e ↦ elim (Bool-cases (packet_type == type_rr)) [
        | inl f ↦ rw (e, f) rr
        | inr f ↦ elim (Bool-cases (packet_type == type_rtpfb)) [
          | inl g ↦ rw (e, f, g) fb
          | inr g ↦ rw (e, f, g) c
        ]
      ]
    ]

abbrev IsStep : List ℕ → RtcpPacket × ℕ → Type 0
IsStep bytes (p, len) = IsPacket p × (4 ≤ len) × (len ≤ length bytes)

parse_one_lem :
    (bytes : List ℕ) (current : Option RtcpPacket)
    → All IsByte bytes
    → OrNull IsPacket current
    → Returns (parse_one bytes current) (OrNull (IsStep bytes))
unfolding parse_one
parse_one_lem bytes current a c =
    Returns-bind (is_rtcp bytes) _ (λ ok. (ok ≡ false) ⊎ (4 ≤ length bytes)) (OrNull (IsStep bytes))
      (is_rtcp_lem bytes a)
      λ ok _ o. elim o [
        | inl e ↦ rw e tt
        | inr l ↦ elim (Bool-cases ok) [
          | inr e ↦ rw e tt
          | inl e ↦ rw e (
              Returns-bind (get_2_bytes bytes 2) _ (λ n. n < u16_mod) (OrNull (IsStep bytes))
                (get_2_bytes_lem bytes 2 a l)
                λ words _ w.
                  Returns-bind (get_1_byte bytes 1) _ (λ n. n < 256) (OrNull (IsStep bytes))
                    (get_1_byte_lem bytes 1 a (omega arith))
                    λ packet_type _ t.
                      elim (Bool-cases (ltb (length bytes) (packet_length words))) [
                        | inl f ↦ rw f tt
                        | inr f ↦ rw f (
                            Returns-bind
                              (parse_by_type packet_type (take (packet_length words) bytes) current)
                              _ (OrNull IsPacket) (OrNull (IsStep bytes))
                              (parse_by_type_lem packet_type (take (packet_length words) bytes)
                                current (All-take IsByte (packet_length words) bytes a) c)
                              λ parsed _ p. ground (arith, p))
                      ])
        ]
      ]

parse_loop_lem :
    (fuel : ℕ) (bytes : List ℕ) (current : Option RtcpPacket)
    → All IsByte bytes
    → length bytes ≤ fuel
    → OrNull IsPacket current
    → Returns (parse_loop fuel bytes current) (OrNull IsPacket)
unfolding parse_loop
parse_loop_lem fuel [] current a h c = c
parse_loop_lem zero (b ∷ bytes) current a h c = absurd (omega arith)
parse_loop_lem (suc fuel) (b ∷ bytes) current a h c =
    Returns-bind (parse_one (b ∷ bytes) current) _ (OrNull (IsStep (b ∷ bytes))) (OrNull IsPacket)
      (parse_one_lem (b ∷ bytes) current a c)
      λ parsed _ s. after parsed s (λ p len st.
        parse_loop_lem fuel (drop len (b ∷ bytes)) (some p) (All-drop IsByte len (b ∷ bytes) a)
          (omega (arith, length-drop len (b ∷ bytes))) st.0)
  where
    after :
        (parsed : Option (RtcpPacket × ℕ))
        → OrNull (IsStep (b ∷ bytes)) parsed
        → ((p : RtcpPacket) (len : ℕ)
            → IsStep (b ∷ bytes) (p, len)
            → Returns (parse_loop fuel (drop len (b ∷ bytes)) (some p)) (OrNull IsPacket))
        → Returns
            (elim parsed as (λ _. Option (Option RtcpPacket)) [
              | none ↦ some none
              | some (p, len) ↦ parse_loop fuel (drop len (b ∷ bytes)) (some p)
            ])
            (OrNull IsPacket)
    after none s k = tt
    after (some (p, len)) s k = k p len s

-- Parsing any bytes as RTCP packets reads nothing out of them and ends: it gives the null pointer, or
-- a packet whose fields are within their widths, with one sender report or 31 receiver reports at
-- most.
pub parse-IsPacket : (bytes : List ℕ) → All IsByte bytes → Returns (parse bytes) (OrNull IsPacket)
unfolding parse
parse-IsPacket bytes a = parse_loop_lem (length bytes) bytes none a (omega arith) tt
