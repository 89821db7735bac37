-- ===== src/Rtcp/Limit.antt =====
-- The limit of a compound packet, and what a receiver reads of its bytes.
use bifrost_sdk.Base.{
  ℕ, ◌≤◌, ◌<◌, ◌≡◌, ◌≢◌, ◌⊎◌, inl, inr, Bool-cases, refl, Bool, true, false, leb, ltb,
  if◌then◌else◌, Option, none, some, List, [], ◌∷◌, ◌++◌, length, arith,
}
use bifrost_sdk.Receiver.Report.{ReceiverReport}
use bifrost_sdk.Rtcp.Defs.{SenderReport, RtcpPacket, get_size}
use bifrost_sdk.Rtcp.Parse.{parse, parse_loop}
use bifrost_sdk.Rtcp.Serialize.{serialize}
use bifrost_sdk.Rtcp.Safety.{IsPacket}
use bifrost_sdk.Rtcp.RoundTrip.{serialize_all, parse-serialize_all}
use bifrost_sdk.Rtcp.Compound.{
  max_size, CompoundPacket, sender_packet, receiver_packet, add_report, remove_report,
  compound_size, add_sender_report, add_receiver_report, serialize_compound,
}

-- No report in the list is the object.
abbrev pub IsNew {ℓ} : {A : Type ℓ} → ℕ → List (ℕ × A) → Type 0
IsNew n [] = Unit {0}
IsNew n (r ∷ rs) = (r.0 ≢ n) × IsNew n rs

remove_report-add {ℓ} :
    {A : Type ℓ} (r : ℕ × A) (rs : List (ℕ × A))
    → IsNew r.0 rs
    → remove_report r (add_report r rs) ≡ rs
unfolding remove_report add_report
remove_report-add r [] n = ground arith
remove_report-add r (s ∷ rs) n = ground (arith, remove_report-add r rs n.1)

-- Of a compound, what adding gives: the larger compound, within the limit, or the old one, where the
-- larger is above it.
unfoldable pub IsAdded : CompoundPacket → CompoundPacket → CompoundPacket × Bool → Type 0
IsAdded c larger (c', added) =
    ((added ≡ true) × (c' ≡ larger) × (compound_size larger ≤ max_size))
    ⊎ ((added ≡ false) × (c' ≡ c) × (max_size < compound_size larger))

add_receiver_report_lem :
    (c : CompoundPacket) (r : ℕ × ReceiverReport)
    → IsNew r.0 c.receiver_reports
    → IsAdded c
        (record c { receiver_reports = c.receiver_reports ++ (r ∷ []) })
        (add_receiver_report c r)
unfolding add_receiver_report IsAdded add_report
add_receiver_report_lem c r n =
    let larger : CompoundPacket = record c { receiver_reports = c.receiver_reports ++ (r ∷ []) } in
    let e : remove_report r (c.receiver_reports ++ (r ∷ [])) ≡ c.receiver_reports =
      unfold add_report in remove_report-add r c.receiver_reports n in
    elim (Bool-cases (leb (compound_size larger) max_size)) [
      | inl t ↦ rw t (inl (refl, refl, ground arith))
      | inr t ↦ rw t (inr (refl, rw e refl, ground arith))
    ]

add_sender_report_lem :
    (c : CompoundPacket) (r : ℕ × SenderReport)
    → IsNew r.0 c.sender_reports
    → IsAdded c (record c { sender_reports = c.sender_reports ++ (r ∷ []) }) (add_sender_report c r)
unfolding add_sender_report IsAdded add_report
add_sender_report_lem c r n =
    let larger : CompoundPacket = record c { sender_reports = c.sender_reports ++ (r ∷ []) } in
    let e : remove_report r (c.sender_reports ++ (r ∷ [])) ≡ c.sender_reports =
      unfold add_report in remove_report-add r c.sender_reports n in
    elim (Bool-cases (leb (compound_size larger) max_size)) [
      | inl t ↦ rw t (inl (refl, refl, ground arith))
      | inr t ↦ rw t (inr (refl, rw e refl, ground arith))
    ]

-- Adding a report that is not in a compound yet puts it behind the others and says so, if the compound
-- stays within 1292 bytes; otherwise it says no and the compound is as before. So for both kinds.
pub add_report-IsAdded :
    (c : CompoundPacket) (s : ℕ × SenderReport) (r : ℕ × ReceiverReport)
    → IsNew s.0 c.sender_reports
    → IsNew r.0 c.receiver_reports
    → IsAdded c (record c { sender_reports = c.sender_reports ++ (s ∷ []) }) (add_sender_report c s)
      × IsAdded c
          (record c { receiver_reports = c.receiver_reports ++ (r ∷ []) })
          (add_receiver_report c r)
add_report-IsAdded c s r m n = (add_sender_report_lem c s m, add_receiver_report_lem c r n)

-- What is read of a compound: the packet of the receiver reports, if there are any, else that of the
-- sender reports.
abbrev pub read_back : CompoundPacket → Option RtcpPacket
read_back c =
    if ltb 0 (length c.receiver_reports)
    then some (receiver_packet c)
    else (if ltb 0 (length c.sender_reports) then some (sender_packet c) else none)

parse_nothing : parse [] ≡ some none
unfolding parse parse_loop
parse_nothing = refl

parse_one_packet :
    (p : RtcpPacket) → IsPacket p → get_size p ≤ 262144 → parse (serialize p []) ≡ some (some p)
parse_one_packet p v h = unfold serialize_all in parse-serialize_all p [] (v, tt) (h, tt)

parse_two_packets :
    (p q : RtcpPacket)
    → IsPacket p
    → IsPacket q
    → get_size p ≤ 262144
    → get_size q ≤ 262144
    → parse (serialize p (serialize q [])) ≡ some (some q)
parse_two_packets p q v w h k =
    unfold serialize_all in parse-serialize_all p (q ∷ []) (v, (w, tt)) (h, (k, tt))

-- The bytes of a compound with one sender report and 31 receiver reports at most, the fields within
-- their widths, are parsed into the packet of its receiver reports, if it has any, else into that of
-- its sender report.
pub parse-serialize_compound :
    (c : CompoundPacket)
    → IsPacket (sender_packet c)
    → IsPacket (receiver_packet c)
    → parse (serialize_compound c) ≡ some (read_back c)
unfolding serialize_compound
parse-serialize_compound c v w = elim (Bool-cases (ltb 0 (length c.receiver_reports))) [
  | inl e ↦ elim (Bool-cases (ltb 0 (length c.sender_reports))) [
    | inl f ↦
        rw (e, f)
          (parse_two_packets (sender_packet c) (receiver_packet c) v w (omega arith) (omega arith))
    | inr f ↦ rw (e, f) (parse_one_packet (receiver_packet c) w (omega arith))
  ]
  | inr e ↦ elim (Bool-cases (ltb 0 (length c.sender_reports))) [
    | inl f ↦ rw (e, f) (parse_one_packet (sender_packet c) v (omega arith))
    | inr f ↦ rw (e, f) parse_nothing
  ]
]
