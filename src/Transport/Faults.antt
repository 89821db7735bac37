-- ===== src/Transport/Faults.antt =====
-- Datagrams that make `Dispatch` read through a null pointer, or an iterator at the end.
use bifrost_sdk.Base.{
  ℕ, ◌≡◌, ◌≢◌, refl, sym, ◌∙◌, true, false, Option-cases, inl, inr, Option, none, some, List, [],
  ◌∷◌, take, arith,
}
use bifrost_sdk.Wire.{get_1_byte, get_2_bytes}
use bifrost_sdk.Packet.{RtpPacket}
use bifrost_sdk.Packet.Parse as PacketParse
use bifrost_sdk.Packet.Accessors.{fields}
use bifrost_sdk.Receiver.Defs.{RtpStreamReceiver}
use bifrost_sdk.Rtcp.Defs.{type_sr, type_rr, type_rtpfb}
use bifrost_sdk.Rtcp.Parse.{packet_length, parse_by_type, parse_one, parse_loop}
use bifrost_sdk.Rtcp.Parse as RtcpParse
use bifrost_sdk.Transport.Defs.{
  is_rtp, is_rtcp, RtcTransport, find_stream, get_stream_receiver_by_ssrc, receive_rtcp_packet,
  receive_sender_part, receive_rtp_packet, dispatch_rtp, dispatch,
}
use bifrost_sdk.Transport.Reports.{is_rtcp_agrees}

unparsed_type :
    (bytes : List ℕ) (type : ℕ)
    → type ≢ type_sr
    → type ≢ type_rr
    → type ≢ type_rtpfb
    → parse_by_type type bytes none ≡ some none
unfolding parse_by_type
unparsed_type bytes type a b c = ground arith

parse_one_unparsed :
    (bytes : List ℕ) (type words : ℕ)
    → RtcpParse.is_rtcp bytes ≡ some true
    → get_1_byte bytes 1 ≡ some type
    → get_2_bytes bytes 2 ≡ some words
    → type ≢ type_sr
    → type ≢ type_rr
    → type ≢ type_rtpfb
    → parse_one bytes none ≡ some none
unfolding parse_one
parse_one_unparsed bytes type words i t w a b c =
    ground (arith, unparsed_type (take (packet_length words) bytes) type a b c)

parse_unparsed :
    (bytes : List ℕ)
    → RtcpParse.is_rtcp bytes ≡ some true
    → parse_one bytes none ≡ some none
    → RtcpParse.parse bytes ≡ some none
unfolding RtcpParse.parse parse_loop RtcpParse.is_rtcp
parse_unparsed [] i e = ground arith
parse_unparsed (x ∷ bytes) i e = rw e refl

module _ (begin : List (ℕ × RtpStreamReceiver) → Option (ℕ × RtpStreamReceiver))
    (fractions : ℕ → ℕ) where
  -- A datagram with the header of an RTCP packet whose type is none of those that are parsed (a BYE, an SDES, a
  -- PLI) makes the dispatch read through the null pointer that the parser gives, whatever the state is.
  pub dispatch_unparsed :
      (t : RtcTransport) (bytes : List ℕ) (created_at : ℕ → ℕ) (now_ms type words : ℕ)
      → is_rtcp bytes ≡ some true
      → get_1_byte bytes 1 ≡ some type
      → get_2_bytes bytes 2 ≡ some words
      → type ≢ type_sr
      → type ≢ type_rr
      → type ≢ type_rtpfb
      → dispatch begin fractions t bytes created_at now_ms ≡ none
  unfolding dispatch receive_rtcp_packet
  dispatch_unparsed t bytes created_at now_ms type words i ty w a b c =
      let j = sym (is_rtcp_agrees bytes) ∙ i in
      rw (i, parse_unparsed bytes j (parse_one_unparsed bytes type words j ty w a b c)) refl

  receive_rtp_packet_alone :
      (t : RtcTransport) (p : RtpPacket) (created_at : ℕ → ℕ) (now_ms : ℕ)
      → t.receivers ≡ []
      → begin [] ≡ none
      → receive_rtp_packet begin fractions t p created_at now_ms ≡ none
  unfolding receive_rtp_packet receive_sender_part get_stream_receiver_by_ssrc find_stream
  receive_rtp_packet_alone t p created_at now_ms e b = ground arith

  dispatch_rtp_alone :
      (t : RtcTransport) (bytes : List ℕ) (created_at : ℕ → ℕ) (now_ms : ℕ)
      → t.receivers ≡ []
      → begin [] ≡ none
      → dispatch_rtp begin fractions t bytes created_at now_ms ≡ none
  unfolding dispatch_rtp
  dispatch_rtp_alone t bytes created_at now_ms e b = elim (Option-cases (PacketParse.parse bytes)) [
    | inl p ↦ rw (dispatch_rtp, p) refl
    | inr (none, p) ↦ rw (dispatch_rtp, p) refl
    | inr (some q, p) ↦ elim (Option-cases (fields q)) [
      | inl f ↦ rw (dispatch_rtp, p, f) refl
      | inr (packet, f) ↦
          rw (dispatch_rtp, p, f) (receive_rtp_packet_alone t packet created_at now_ms e b)
    ]
  ]

  -- Of a client that only sends, every datagram that passes for an RTP packet makes the dispatch fault: of the
  -- empty table of receivers it reads the first entry. (The iterator to the first entry of an empty
  -- table is at its end.)
  pub dispatch_without_receiver :
      (t : RtcTransport) (bytes : List ℕ) (created_at : ℕ → ℕ) (now_ms : ℕ)
      → t.receivers ≡ []
      → begin [] ≡ none
      → is_rtcp bytes ≡ some false
      → is_rtp bytes ≡ some true
      → dispatch begin fractions t bytes created_at now_ms ≡ none
  unfolding dispatch
  dispatch_without_receiver t bytes created_at now_ms e b i j =
      rw (i, j) (dispatch_rtp_alone t bytes created_at now_ms e b)
