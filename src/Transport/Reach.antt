-- ===== src/Transport/Reach.antt =====
-- What a client goes through: each step is a call of the transport from outside (the API, the network, a timer).
use bifrost_sdk.Base.{ℕ, ◌<◌, ◌≡◌, Bool, Option, some, List, length, All, u32_mod}
use bifrost_sdk.Packet.{RtpPacket}
use bifrost_sdk.Packet.Layout.{IsByte}
use bifrost_sdk.Packet.Build.{block_size}
use bifrost_sdk.Nack.Defs.{Event, NackGenerator}
use bifrost_sdk.Nack.Receive.{on_timer}
use bifrost_sdk.Receiver.Defs.{RtpStreamReceiver}
use bifrost_sdk.Transport.Defs.{
  RtcTransport, new_rtc_transport, StreamType, find_stream, update_stream, create_rtp_stream,
  delete_rtp_stream, dispatch,
}
use bifrost_sdk.Transport.Send.{on_send_packet, send_rtcp_packet}

module _ (begin : List (ℕ × RtpStreamReceiver) → Option (ℕ × RtpStreamReceiver)) (fractions : ℕ → ℕ)
    (round_quotient : ℕ → ℕ → ℕ) where
  -- A call that does not fault, from the state before to the state after.
  pub data Step : RtcTransport → RtcTransport → Type 0 where
    created :
        (t : RtcTransport) (ssrc : ℕ) (type : StreamType) (is_address : Bool)
        → ssrc < u32_mod
        → Step t (create_rtp_stream t ssrc type is_address)
    deleted : (t : RtcTransport) (ssrc : ℕ) → Step t (delete_rtp_stream t ssrc)
    dispatched :
        (t t' : RtcTransport) (bytes : List ℕ) (created_at : ℕ → ℕ) (now_ms : ℕ)
        (packets : List RtpPacket) (events : List Event)
        → All IsByte bytes
        → length bytes < u32_mod
        → dispatch begin fractions t bytes created_at now_ms ≡ some (t', packets, events)
        → Step t t'
    sent_packet :
        (t t' : RtcTransport) (block payload : List ℕ) (ssrc now_ms : ℕ) (datagrams : List (List ℕ))
        → length block ≡ block_size
        → ssrc < u32_mod
        → on_send_packet t block ssrc payload now_ms ≡ some (t', datagrams)
        → Step t t'
    sent_reports :
        (t t' : RtcTransport) (now_ms : ℕ → ℕ) (datagrams : List (List ℕ))
        → send_rtcp_packet fractions round_quotient t now_ms ≡ some (t', datagrams)
        → Step t t'
    nack_timer :
        (t : RtcTransport) (ssrc now_ms : ℕ) (r : RtpStreamReceiver) (g : NackGenerator)
        → find_stream ssrc t.receivers ≡ some r
        → r.nack_generator ≡ some g
        → Step t (record t {
          receivers =
              update_stream ssrc
                (record r { nack_generator = some (on_timer g now_ms).0 })
                t.receivers;
        })

  -- The states of a client from its construction on.
  pub data Reachable : RtcTransport → Type 0 where
    start : Reachable new_rtc_transport
    next : (t t' : RtcTransport) → Reachable t → Step t t' → Reachable t'
