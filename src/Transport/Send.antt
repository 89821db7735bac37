-- ===== src/Transport/Send.antt =====
-- `OnSendPacket`, which builds a packet around a payload and gives it to the stream that is to send it,
-- and `SendRtcpPacket` over all streams.
use bifrost_sdk.Base.{ℕ, Option, none, some, ◌>>=◌, List, [], ◌∷◌, ◌++◌, map, add16, add32}
use bifrost_sdk.Packet.Parse.{ParsedPacket}
use bifrost_sdk.Packet.Accessors.{fields}
use bifrost_sdk.Packet.Build.{
  new_rtp_packet, copy_payload, set_version, set_payload_type, set_sequence_number, set_timestamp,
  set_ssrc, sent_bytes,
}
use bifrost_sdk.Receiver.Defs.{RtpStreamReceiver}
use bifrost_sdk.Sender.Defs.{RtpStreamSender}
use bifrost_sdk.Sender.Defs as SenderDefs
use bifrost_sdk.Transport.Defs.{
  RtcTransport, find_stream, update_stream, send_receiver_report, send_sender_report,
}

-- The packet, in a new block of memory.
unfoldable pub build_packet : List ℕ → ℕ → ℕ → ℕ → List ℕ → Option ParsedPacket
build_packet block ssrc seq timestamp payload =
    (new_rtp_packet block >>= λ q. copy_payload q payload) >>= λ q. set_version q 2 >>= λ q.
    set_ssrc q ssrc >>= λ q.
    set_sequence_number q seq >>= λ q. set_timestamp q timestamp >>= λ q. set_payload_type q 100

-- The transport afterwards, and the bytes that its listener is given to send.
unfoldable pub on_send_packet :
    RtcTransport → List ℕ → ℕ → List ℕ → ℕ → Option (RtcTransport × List (List ℕ))
on_send_packet t block ssrc payload now_ms = elim (find_stream ssrc t.senders) [
  | none ↦ some (t, [])
  | some s ↦ build_packet block ssrc t.test_seq (add32 t.timestamp 100) payload >>= λ q.
      fields q >>= λ p. SenderDefs.receive_packet s p now_ms >>= λ r. some (
        record t {
          senders = update_stream ssrc r.0 t.senders;
          test_seq = add16 t.test_seq 1;
          timestamp = add32 t.timestamp 100;
        },
        map (λ _. sent_bytes q) r.2,
      )
]

-- The two loops of `SendRtcpPacket`, and the whole: the datagrams in the order in which they are sent. For each
-- stream the clock is read anew.
unfoldable pub send_receiver_reports :
    (ℕ → ℕ → ℕ)
    → List (ℕ × RtpStreamReceiver)
    → (ℕ → ℕ)
    → Option (List (ℕ × RtpStreamReceiver) × List (List ℕ))
send_receiver_reports round_quotient [] now_ms = some ([], [])
send_receiver_reports round_quotient (x ∷ xs) now_ms =
    send_receiver_report round_quotient x.1 (now_ms x.0) >>= λ (r, datagram).
    send_receiver_reports round_quotient xs now_ms >>= λ (rest, datagrams).
    some ((x.0, r) ∷ rest, datagram ∷ datagrams)

abbrev pub send_sender_reports : (ℕ → ℕ) → List (ℕ × RtpStreamSender) → (ℕ → ℕ) → List (List ℕ)
send_sender_reports fractions xs now_ms =
    map (λ x. send_sender_report fractions x.1 (now_ms x.0)) xs

unfoldable pub send_rtcp_packet :
    (ℕ → ℕ) → (ℕ → ℕ → ℕ) → RtcTransport → (ℕ → ℕ) → Option (RtcTransport × List (List ℕ))
send_rtcp_packet fractions round_quotient t now_ms =
    send_receiver_reports round_quotient t.receivers now_ms >>= λ (receivers, datagrams). some (
      record t { receivers = receivers },
      datagrams ++ send_sender_reports fractions t.senders now_ms,
    )
