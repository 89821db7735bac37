-- ===== src/Transport/Sent.antt =====
-- From `OnSendPacket` of one client to `Dispatch` of another: what a payload becomes on its way.
use bifrost_sdk.Base.{
  ℕ, ◌+◌, ◌*◌, ◌/◌, ◌%◌, ◌≤◌, ◌<◌, ◌≡◌, refl, sym, append-nil, Option, none, some, ◌>>=◌, List, [],
  ◌∷◌, ◌++◌, map, length, take-append, drop, u16_mod, u32_mod, add16, add32, true, false, arith,
}
use bifrost_sdk.Packet.{RtpPacket}
use bifrost_sdk.Packet.Parse.{header_size, ParsedPacket, parse, parse_padding, read_u32}
use bifrost_sdk.Packet.Payload.{wire, IsHeader, unpadded, parse-wire}
use bifrost_sdk.Packet.RoundTrip.{Carries}
use bifrost_sdk.Packet.Accessors.{fields, read_u16}
use bifrost_sdk.Packet.Build.{
  block_size, write_bytes, set_version, set_payload_type, set_sequence_number, set_timestamp,
  set_ssrc, sent_bytes, bytes_of_u16, bytes_of_u32,
}
use bifrost_sdk.Packet.Built.{copy_payload-new, copy_payload_over}
use bifrost_sdk.Receiver.Defs.{RtpStreamReceiver}
use bifrost_sdk.Sender.Defs.{RtpStreamSender}
use bifrost_sdk.Sender.Defs as SenderDefs
use bifrost_sdk.Transport.Defs.{
  is_rtp, is_rtcp, RtcTransport, find_stream, update_stream, receive_rtp_packet, dispatch_rtp,
  dispatch,
}
use bifrost_sdk.Transport.Send.{build_packet, on_send_packet}

-- The fixed header behind its first byte.
abbrev pub header_of : ℕ → ℕ → ℕ → List ℕ
header_of ssrc seq timestamp =
    100 ∷ (bytes_of_u16 seq ++ (bytes_of_u32 timestamp ++ bytes_of_u32 ssrc))

-- The bytes of a packet that carries a payload.
abbrev pub datagram_of : ℕ → ℕ → ℕ → List ℕ → List ℕ
datagram_of ssrc seq timestamp payload = wire 128 (header_of ssrc seq timestamp) [] payload

-- Its fields.
abbrev pub packet_of : ℕ → ℕ → ℕ → List ℕ → RtpPacket
packet_of ssrc seq timestamp payload = record {
  payload_type = 100;
  sequence_number = seq;
  timestamp = timestamp;
  ssrc = ssrc;
  size = header_size + length payload;
}

module _ (ssrc seq timestamp : ℕ) (payload : List ℕ) where
  -- The packet in its block.
  abbrev built : List ℕ → ParsedPacket
  built block = record {
    bytes =
        128
        ∷ (header_of ssrc seq timestamp
            ++ (payload ++ drop (length payload) (drop header_size block)));
    size = header_size + length payload;
    header_extension = none;
    payload = none;
    payload_length = 0;
    payload_padding = 0;
  }

  build_packet_lem :
      (block : List ℕ)
      → length block ≡ block_size
      → header_size + length payload ≤ block_size
      → build_packet block ssrc seq timestamp payload ≡ some (built block)
  unfolding build_packet set_version set_payload_type set_sequence_number set_timestamp set_ssrc
      write_bytes
  build_packet_lem block e h = rw (copy_payload-new block payload e h) refl

  fields-header_of :
      (q : ParsedPacket) (rest : List ℕ)
      → ssrc < u32_mod
      → seq < u16_mod
      → timestamp < u32_mod
      → q.bytes ≡ 128 ∷ (header_of ssrc seq timestamp ++ rest)
      → q.size ≡ header_size + length payload
      → fields q ≡ some (packet_of ssrc seq timestamp payload)
  unfolding fields read_u16 read_u32
  fields-header_of q rest a b c e l =
      let x : seq % 256 + 256 * (seq / 256 % 256) ≡ seq = omega arith in
      let y : (n : ℕ)
          → n < u32_mod
          → n % 256
              + 256 * (n / 256 % 256)
              + 65536 * (n / 65536 % 256)
              + 16777216 * (n / 16777216 % 256)
            ≡ n =
        λ n h. omega arith in
      rw (e, l, x, y timestamp c, y ssrc a) refl

  header_of-IsHeader : IsHeader 128 (header_of ssrc seq timestamp) []
  unfolding IsHeader
  header_of-IsHeader = (omega arith, omega arith, refl, refl, refl)

  parse-datagram_of :
      length (datagram_of ssrc seq timestamp payload) < u32_mod
      → parse (datagram_of ssrc seq timestamp payload)
        ≡ some (some (unpadded 128 (header_of ssrc seq timestamp) [] payload header_of-IsHeader))
  unfolding parse_padding
  parse-datagram_of h =
      rw (parse-wire 128 (header_of ssrc seq timestamp) [] payload header_of-IsHeader h) refl

  fields-datagram_of :
      ssrc < u32_mod
      → seq < u16_mod
      → timestamp < u32_mod
      → length (datagram_of ssrc seq timestamp payload) < u32_mod
      → fields (unpadded 128 (header_of ssrc seq timestamp) [] payload header_of-IsHeader)
        ≡ some (packet_of ssrc seq timestamp payload)
  unfolding unpadded
  fields-datagram_of a b c l =
      fields-header_of (unpadded 128 (header_of ssrc seq timestamp) [] payload header_of-IsHeader)
        payload a b c refl (omega arith)

  Carries-datagram_of :
      header_size + length payload ≤ block_size
      → (q : ParsedPacket) × (parse (datagram_of ssrc seq timestamp payload) ≡ some (some q))
        × Carries (datagram_of ssrc seq timestamp payload) payload [] q
  unfolding Carries unpadded
  Carries-datagram_of h = (
    unpadded 128 (header_of ssrc seq timestamp) [] payload header_of-IsHeader,
    parse-datagram_of (omega arith),
    (header_size, refl, sym (append-nil payload), refl, refl),
  )

  is_rtcp-datagram_of : is_rtcp (datagram_of ssrc seq timestamp payload) ≡ some false
  unfolding is_rtcp
  is_rtcp-datagram_of = ground arith

  is_rtp-datagram_of : is_rtp (datagram_of ssrc seq timestamp payload) ≡ some true
  unfolding is_rtp
  is_rtp-datagram_of = ground arith

  module _ (begin : List (ℕ × RtpStreamReceiver) → Option (ℕ × RtpStreamReceiver))
      (fractions : ℕ → ℕ) where
    dispatch-datagram_of :
        (t : RtcTransport) (created_at : ℕ → ℕ) (now_ms : ℕ)
        → ssrc < u32_mod
        → seq < u16_mod
        → timestamp < u32_mod
        → header_size + length payload ≤ block_size
        → dispatch begin fractions t (datagram_of ssrc seq timestamp payload) created_at now_ms
          ≡ receive_rtp_packet begin fractions t
              (packet_of ssrc seq timestamp payload)
              created_at
              now_ms
    unfolding dispatch dispatch_rtp
    dispatch-datagram_of t created_at now_ms a b c l =
        let m : length (datagram_of ssrc seq timestamp payload) < u32_mod = omega arith in
        rw
          (is_rtcp-datagram_of, is_rtp-datagram_of, parse-datagram_of m, fields-datagram_of a b c m)
          refl

-- Whether the stream accepts it or not.
abbrev pub sent :
    RtcTransport → RtpStreamSender → ℕ → List ℕ → ℕ → Option (RtcTransport × List (List ℕ))
sent t s ssrc payload now_ms =
    let timestamp = add32 t.timestamp 100 in
    SenderDefs.receive_packet s (packet_of ssrc t.test_seq timestamp payload) now_ms >>= λ r. some (
      record t {
        senders = update_stream ssrc r.0 t.senders;
        test_seq = add16 t.test_seq 1;
        timestamp = timestamp;
      },
      map (λ _. datagram_of ssrc t.test_seq timestamp payload) r.2,
    )

sent_bytes-built :
    (ssrc seq timestamp : ℕ) (payload block : List ℕ)
    → sent_bytes (built ssrc seq timestamp payload block) ≡ datagram_of ssrc seq timestamp payload
sent_bytes-built ssrc seq timestamp payload block =
    take-append (datagram_of ssrc seq timestamp payload)
      (drop (length payload) (drop header_size block)) _ (omega arith)

pub on_send_packet_lem :
    (t : RtcTransport) (s : RtpStreamSender) (ssrc : ℕ) (block payload : List ℕ) (now_ms : ℕ)
    → find_stream ssrc t.senders ≡ some s
    → length block ≡ block_size
    → header_size + length payload ≤ block_size
    → ssrc < u32_mod
    → t.test_seq < u16_mod
    → on_send_packet t block ssrc payload now_ms ≡ sent t s ssrc payload now_ms
unfolding on_send_packet
on_send_packet_lem t s ssrc block payload now_ms f e h a b =
    let timestamp = add32 t.timestamp 100 in
    rw
      (
        on_send_packet,
        f,
        build_packet_lem ssrc t.test_seq timestamp payload block e h,
        fields-header_of ssrc t.test_seq timestamp payload
            (built ssrc t.test_seq timestamp payload block)
            (payload ++ drop (length payload) (drop header_size block)) a b (omega arith) refl refl,
        sent_bytes-built ssrc t.test_seq timestamp payload block,
      )
      refl

module _ (begin : List (ℕ × RtpStreamReceiver) → Option (ℕ × RtpStreamReceiver))
    (fractions : ℕ → ℕ) where
  -- A payload of up to 1388 bytes that is given to a client's sending stream does not overrun its
  -- packet, whatever was in the memory. The stream takes a packet of type 100 with the next number and the next
  -- timestamp, and what it hands on are the bytes of that packet. Another client that gets these bytes parses a
  -- packet with just that payload, and hands a packet with just those fields to its receiving streams.
  pub on_send-dispatch :
      (t peer : RtcTransport) (s : RtpStreamSender) (ssrc : ℕ) (block payload : List ℕ)
      (created_at : ℕ → ℕ) (now_ms arrived_ms : ℕ)
      → find_stream ssrc t.senders ≡ some s
      → length block ≡ block_size
      → header_size + length payload ≤ block_size
      → ssrc < u32_mod
      → t.test_seq < u16_mod
      → let timestamp = add32 t.timestamp 100 in
        let datagram = datagram_of ssrc t.test_seq timestamp payload in
        (on_send_packet t block ssrc payload now_ms ≡ sent t s ssrc payload now_ms)
        × (dispatch begin fractions peer datagram created_at arrived_ms
            ≡ receive_rtp_packet begin fractions peer
                (packet_of ssrc t.test_seq timestamp payload)
                created_at
                arrived_ms)
        × ((q : ParsedPacket) × (parse datagram ≡ some (some q)) × Carries datagram payload [] q)
  on_send-dispatch t peer s ssrc block payload created_at now_ms arrived_ms f e h a b =
      let timestamp = add32 t.timestamp 100 in
      (
        on_send_packet_lem t s ssrc block payload now_ms f e h a b,
        dispatch-datagram_of ssrc t.test_seq timestamp payload begin fractions peer created_at
            arrived_ms a b (omega arith) h,
        Carries-datagram_of ssrc t.test_seq timestamp payload h,
      )

-- A longer payload is written over the end of the packet's block, whatever stream it is for.
pub on_send_packet_over :
    (t : RtcTransport) (s : RtpStreamSender) (ssrc : ℕ) (block payload : List ℕ) (now_ms : ℕ)
    → find_stream ssrc t.senders ≡ some s
    → length block ≡ block_size
    → block_size < header_size + length payload
    → on_send_packet t block ssrc payload now_ms ≡ none
unfolding on_send_packet build_packet
on_send_packet_over t s ssrc block payload now_ms f e h =
    rw (on_send_packet, f, copy_payload_over block payload e h) refl
