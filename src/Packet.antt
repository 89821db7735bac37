-- ===== src/Packet.antt =====
-- The RTP packet of core/include/rtc/rtp_packet.h as its accessors show it.
pub mod Parse
pub mod Layout
pub mod Accessors
pub mod Payload
pub mod RoundTrip
pub mod Build
pub mod Built
mod Tests
use bifrost_sdk.Base.{ℕ}

-- The fields of the RTP header that the streams read and write, and `size_` of the packet.
pub record RtpPacket : Type 0 where
  pub payload_type : ℕ
  pub sequence_number : ℕ
  pub timestamp : ℕ
  pub ssrc : ℕ
  pub size : ℕ
