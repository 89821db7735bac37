-- ===== src/Transport/Invariant.antt =====
-- The invariant of a client: what holds of its streams in every state that it reaches.
use bifrost_sdk.Base.{
  ℕ, ◌≤◌, ◌<◌, ◌≡◌, Bool, true, false, Option, none, some, ◌>>=◌, Option-cases, inl, inr, List, [],
  ◌∷◌, length, All, u16_mod, u32_mod, arith, Ensures, Ensures-bind, Ensures-map, Ensures-all,
  Ensures-if, Ensures-Returns, Returns-eq,
}
use bifrost_sdk.Packet.{RtpPacket}
use bifrost_sdk.Packet.Parse.{header_size, ParsedPacket}
use bifrost_sdk.Packet.Parse as PacketParse
use bifrost_sdk.Packet.Layout.{IsByte, IsWithin, Outcome, parse-Outcome}
use bifrost_sdk.Packet.Accessors.{fields, fields_lem}
use bifrost_sdk.Nack.Defs.{Event}
use bifrost_sdk.Receiver.Report.{ReceiverReport}
use bifrost_sdk.Receiver.Defs.{RtpStreamReceiver, receive_rtcp_sender_report}
use bifrost_sdk.Receiver.Defs as ReceiverDefs
use bifrost_sdk.Sender.Defs.{RtpStreamSender, receive_rtcp_receiver_report}
use bifrost_sdk.Sender.Defs as SenderDefs
use bifrost_sdk.Rtcp.Defs.{
  SenderReport, RtcpPacket, sender_report_packet, receiver_report_packet, nack_packet,
}
use bifrost_sdk.Rtcp.Parse as RtcpParse
use bifrost_sdk.Transport.Defs.{
  RtcTransport, StreamType, stream_sender, stream_receiver, find_stream, update_stream, is_rtp,
  is_rtcp, create_rtp_stream, delete_rtp_stream, get_stream_receiver_by_ssrc,
  receive_sender_reports, receive_receiver_reports, receive_rtcp_packet, receive_sender_part,
  receive_rtp_packet, dispatch_rtp, dispatch,
}
use bifrost_sdk.Transport.Sound.{
  IsSoundReceiver, IsSoundSender, new-IsSoundReceiver, new-IsSoundSender, received-IsSoundReceiver,
  received-IsSoundSender, told-IsSoundReceiver, told-IsSoundSender,
}
use bifrost_sdk.Transport.Table.{IsTable, find-IsTable, update-IsTable, erase-IsTable}

-- The tables have different numbers, and sound streams under them; the counters of the sent packets are within
-- their widths.
pub record IsSound (t : RtcTransport) : Type 0 where
  pub receivers_sound : IsTable IsSoundReceiver t.receivers
  pub senders_sound : IsTable IsSoundSender t.senders
  pub seq_in : t.test_seq < u16_mod
  pub timestamp_in : t.timestamp < u32_mod

pub created-IsSound :
    (t : RtcTransport) (ssrc : ℕ) (type : StreamType) (is_address : Bool)
    → ssrc < u32_mod
    → IsSound t
    → IsSound (create_rtp_stream t ssrc type is_address)
unfolding create_rtp_stream
created-IsSound t ssrc type false h v = v
created-IsSound t ssrc stream_receiver true h v = ground (arith, v, new-IsSoundReceiver ssrc h)
created-IsSound t ssrc stream_sender true h v = ground (arith, v, new-IsSoundSender ssrc 16000 h)

pub deleted-IsSound : (t : RtcTransport) (ssrc : ℕ) → IsSound t → IsSound (delete_rtp_stream t ssrc)
unfolding delete_rtp_stream
deleted-IsSound t ssrc v = ground (
  arith,
  v,
  erase-IsTable IsSoundReceiver ssrc t.receivers v.receivers_sound,
  erase-IsTable IsSoundSender ssrc t.senders v.senders_sound,
)

module _ (t : RtcTransport) (ssrc : ℕ) (v : IsSound t) where
  pub updated_receiver-IsSound :
      (r : RtpStreamReceiver)
      → IsSoundReceiver ssrc r
      → IsSound (record t { receivers = update_stream ssrc r t.receivers })
  updated_receiver-IsSound r h = record {
    receivers_sound = update-IsTable IsSoundReceiver ssrc r t.receivers v.receivers_sound h;
    senders_sound = v.senders_sound;
    seq_in = v.seq_in;
    timestamp_in = v.timestamp_in;
  }

  pub updated_sender-IsSound :
      (s : RtpStreamSender)
      → IsSoundSender ssrc s
      → IsSound (record t { senders = update_stream ssrc s t.senders })
  updated_sender-IsSound s h = record {
    receivers_sound = v.receivers_sound;
    senders_sound = update-IsTable IsSoundSender ssrc s t.senders v.senders_sound h;
    seq_in = v.seq_in;
    timestamp_in = v.timestamp_in;
  }

module _ (begin : List (ℕ × RtpStreamReceiver) → Option (ℕ × RtpStreamReceiver))
    (begin_in : (xs : List (ℕ × RtpStreamReceiver))
      → Ensures (begin xs) (λ e. find_stream e.0 xs ≡ some e.1)) where
  get-IsSoundReceiver :
      (t : RtcTransport) (ssrc : ℕ)
      → IsSound t
      → Ensures (get_stream_receiver_by_ssrc begin t ssrc) (λ e. IsSoundReceiver e.0 e.1)
  unfolding get_stream_receiver_by_ssrc
  get-IsSoundReceiver t ssrc v = elim (Option-cases (find_stream ssrc t.receivers)) [
    | inl e ↦
        rw (get_stream_receiver_by_ssrc, e)
          (Ensures-map (begin t.receivers) _ _ (begin_in t.receivers)
            λ x _ f. find-IsTable IsSoundReceiver x.0 x.1 t.receivers v.receivers_sound f)
    | inr (r, e) ↦
        rw (get_stream_receiver_by_ssrc, e)
          (find-IsTable IsSoundReceiver ssrc r t.receivers v.receivers_sound e)
  ]

  sender_reports-IsSound :
      (reports : List SenderReport) (t : RtcTransport) (now_ms : ℕ)
      → IsSound t
      → Ensures (receive_sender_reports begin t reports now_ms) IsSound
  unfolding receive_sender_reports
  sender_reports-IsSound [] t now_ms v = v
  sender_reports-IsSound (report ∷ reports) t now_ms v =
      Ensures-bind (get_stream_receiver_by_ssrc begin t report.ssrc) _ _ (
        Ensures-map (get_stream_receiver_by_ssrc begin t report.ssrc) _ _
          (get-IsSoundReceiver t report.ssrc v)
          λ (ssrc, r) _ h. sender_reports-IsSound reports _ now_ms (
            updated_receiver-IsSound t ssrc v _
              (told-IsSoundReceiver ssrc r now_ms h report.ntp_sec report.ntp_frac)))

  module _ (fractions : ℕ → ℕ) where
    receiver_reports-IsSound :
        (reports : List ReceiverReport) (t : RtcTransport) (now_ms : ℕ)
        → IsSound t
        → IsSound (receive_receiver_reports begin fractions t reports now_ms)
    unfolding receive_receiver_reports
    receiver_reports-IsSound [] t now_ms v = v
    receiver_reports-IsSound (report ∷ reports) t now_ms v =
        elim (Option-cases (find_stream report.ssrc t.senders)) [
          | inl e ↦ rw (receive_receiver_reports, e) (receiver_reports-IsSound reports t now_ms v)
          | inr (s, e) ↦
              rw (receive_receiver_reports, e)
                (receiver_reports-IsSound reports _ now_ms (
                  updated_sender-IsSound t report.ssrc v _ (
                    told-IsSoundSender fractions report.ssrc s report now_ms
                      (find-IsTable IsSoundSender report.ssrc s t.senders v.senders_sound e))))
        ]

    rtcp_packet-IsSound :
        (t : RtcTransport) (packet : Option RtcpPacket) (now_ms : ℕ)
        → IsSound t
        → Ensures (receive_rtcp_packet begin fractions t packet now_ms) IsSound
    unfolding receive_rtcp_packet
    rtcp_packet-IsSound t none now_ms v = tt
    rtcp_packet-IsSound t (some (sender_report_packet reports)) now_ms v =
        sender_reports-IsSound reports t now_ms v
    rtcp_packet-IsSound t (some (receiver_report_packet ssrc reports)) now_ms v =
        receiver_reports-IsSound reports t now_ms v
    rtcp_packet-IsSound t (some (nack_packet sender media items)) now_ms v = v

    module _ (p : RtpPacket) (h : p.sequence_number < u16_mod) where
      sender_part-IsSound :
          (t : RtcTransport) (now_ms : ℕ)
          → IsSound t
          → Ensures (receive_sender_part begin fractions t p now_ms) (λ r. IsSound r.0)
      unfolding receive_sender_part
      sender_part-IsSound t now_ms v = elim (Option-cases (find_stream p.ssrc t.senders)) [
        | inl e ↦ rw (receive_sender_part, e) v
        | inr (s, e) ↦
            rw (receive_sender_part, e)
              (Ensures-bind (SenderDefs.receive_packet s p now_ms) _ _ (
                Ensures-map (SenderDefs.receive_packet s p now_ms) _ _
                  (received-IsSoundSender p.ssrc p now_ms h s
                    (find-IsTable IsSoundSender p.ssrc s t.senders v.senders_sound e))
                  λ n _ k. updated_sender-IsSound t p.ssrc v n.0 k))
      ]

      rtp_packet-IsSound :
          (t : RtcTransport) (created_at : ℕ → ℕ) (now_ms : ℕ)
          → IsSound t
          → Ensures (receive_rtp_packet begin fractions t p created_at now_ms) (λ r. IsSound r.0)
      unfolding receive_rtp_packet
      rtp_packet-IsSound t created_at now_ms v =
          Ensures-bind (receive_sender_part begin fractions t p now_ms) _ _ (
            Ensures-map (receive_sender_part begin fractions t p now_ms) _ _
              (sender_part-IsSound t now_ms v)
              λ (t', packets) _ w. Ensures-bind (get_stream_receiver_by_ssrc begin t' p.ssrc) _ _ (
                Ensures-map (get_stream_receiver_by_ssrc begin t' p.ssrc) _ _
                  (get-IsSoundReceiver t' p.ssrc w)
                  λ (ssrc, r) _ k.
                    Ensures-bind (ReceiverDefs.receive_packet r p created_at now_ms) _ _ (
                      Ensures-map (ReceiverDefs.receive_packet r p created_at now_ms) _ _
                        (received-IsSoundReceiver ssrc p now_ms h r created_at k)
                        λ n _ l. updated_receiver-IsSound t' ssrc w n.0 l)))

    module _ (bytes : List ℕ) (a : All IsByte bytes) (b : length bytes < u32_mod) where
      fields-parsed :
          (q : ParsedPacket)
          → header_size ≤ length bytes
          → PacketParse.parse bytes ≡ some (some q)
          → Ensures (fields q) (λ p. p.sequence_number < u16_mod)
      unfolding Outcome IsWithin
      fields-parsed q l e =
          let w : IsWithin bytes q = (Returns-eq e (Outcome bytes) (parse-Outcome bytes a b)).0 in
          Ensures-map (fields q) _ _
            (Ensures-Returns (fields q) _ (fields_lem q (rw (w.0) a) (rw (w.0) l))) λ p _ h. h.1

      dispatch_rtp-IsSound :
          (t : RtcTransport) (created_at : ℕ → ℕ) (now_ms : ℕ)
          → header_size ≤ length bytes
          → IsSound t
          → Ensures (dispatch_rtp begin fractions t bytes created_at now_ms) (λ r. IsSound r.0)
      unfolding dispatch_rtp
      dispatch_rtp-IsSound t created_at now_ms l v = elim (Option-cases (PacketParse.parse bytes)) [
        | inl e ↦ rw (dispatch_rtp, e) tt
        | inr (none, e) ↦ rw (dispatch_rtp, e) tt
        | inr (some q, e) ↦
            rw (dispatch_rtp, e)
              (Ensures-bind (fields q) _ _ (
                Ensures-map (fields q) _ _ (fields-parsed q l e)
                  λ p _ h. rtp_packet-IsSound p h t created_at now_ms v))
      ]

      is_rtp_long : Ensures (is_rtp bytes) (λ rtp. rtp ≡ true → header_size ≤ length bytes)
      unfolding is_rtp
      is_rtp_long = ground arith

      rtcp_part-IsSound :
          (t : RtcTransport) (now_ms : ℕ)
          → IsSound t
          → Ensures {A = RtcTransport × List RtpPacket × List Event}
              (RtcpParse.parse bytes >>= λ packet.
                receive_rtcp_packet begin fractions t packet now_ms >>= λ t'. some (t', [], []))
              (λ r. IsSound r.0)
      rtcp_part-IsSound t now_ms v = Ensures-bind (RtcpParse.parse bytes) _ _ (
          Ensures-all (RtcpParse.parse bytes) _ λ packet.
            Ensures-bind (receive_rtcp_packet begin fractions t packet now_ms) _ _
              (rtcp_packet-IsSound t packet now_ms v))

      pub dispatch-IsSound :
          (t : RtcTransport) (created_at : ℕ → ℕ) (now_ms : ℕ)
          → IsSound t
          → Ensures (dispatch begin fractions t bytes created_at now_ms) (λ r. IsSound r.0)
      unfolding dispatch
      dispatch-IsSound t created_at now_ms v = Ensures-bind (is_rtcp bytes) _ _ (
          Ensures-all (is_rtcp bytes) _ λ rtcp.
            Ensures-if rtcp _ _ _ (λ _. rtcp_part-IsSound t now_ms v)
              (λ _. Ensures-bind (is_rtp bytes) _ _ (
                Ensures-map (is_rtp bytes) _ _ is_rtp_long λ rtp _ h.
                  Ensures-if rtp _ _ _ (λ e. dispatch_rtp-IsSound t created_at now_ms (h e) v)
                    (λ _. v))))
