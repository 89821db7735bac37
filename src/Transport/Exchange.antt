-- ===== src/Transport/Exchange.antt =====
-- An exchange of reports between two clients, from the sender's report to its round trip time.
use bifrost_sdk.Base.{ℕ, ◌+◌, Option, ◌>>=◌, List}
use bifrost_sdk.Receiver.Defs.{RtpStreamReceiver}
use bifrost_sdk.Sender.Defs.{RtpStreamSender}
use bifrost_sdk.Transport.Defs.{
  RtcTransport, find_stream, dispatch, send_receiver_report, send_sender_report,
}

module _ (begin : List (ℕ × RtpStreamReceiver) → Option (ℕ × RtpStreamReceiver)) (fractions : ℕ → ℕ)
    (round_quotient : ℕ → ℕ → ℕ) where
  -- The sender s of the client a sends its report at sent_ms; the client b takes it at arrived_ms and sends
  -- the report of its receiver delay_ms later, which a takes at returned_ms. The result is the sender.
  unfoldable pub exchange :
      RtcTransport
      → RtcTransport
      → RtpStreamSender
      → (ℕ → ℕ)
      → ℕ
      → ℕ
      → ℕ
      → ℕ
      → Option RtpStreamSender
  exchange a b s created_at sent_ms arrived_ms delay_ms returned_ms =
      dispatch begin fractions b (send_sender_report fractions s sent_ms) created_at arrived_ms
      >>= λ out. find_stream s.ssrc out.0.receivers >>= λ r.
          (send_receiver_report round_quotient r (arrived_ms + delay_ms) >>= λ made.
          dispatch begin fractions a made.1 created_at returned_ms)
          >>= λ back. find_stream s.ssrc back.0.senders
