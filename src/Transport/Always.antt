-- ===== src/Transport/Always.antt =====
-- From the calls of a client to all the states that it reaches.
use bifrost_sdk.Base.{
  ℕ, ◌+◌, ◌%◌, ◌<◌, ◌≡◌, refl, Bool-cases, Option-cases, inl, inr, ltb, Option, none, some, List,
  [], ◌∷◌, length, u32_mod, arith, Ensures, Ensures-bind, Ensures-map, Ensures-eq,
}
use bifrost_sdk.Packet.Parse.{header_size}
use bifrost_sdk.Packet.Build.{block_size}
use bifrost_sdk.Receiver.Defs.{RtpStreamReceiver, get_rtcp_receiver_report}
use bifrost_sdk.Sender.Defs.{RtpStreamSender}
use bifrost_sdk.Sender.Defs as SenderDefs
use bifrost_sdk.Transport.Defs.{RtcTransport, find_stream, send_receiver_report}
use bifrost_sdk.Transport.Send.{on_send_packet, send_receiver_reports, send_rtcp_packet}
use bifrost_sdk.Transport.Sent.{packet_of, sent, on_send_packet_lem, on_send_packet_over}
use bifrost_sdk.Transport.Sound.{
  IsSoundReceiver, IsSoundSender, received-IsSoundSender, reported-IsSoundReceiver,
  timed-IsSoundReceiver,
}
use bifrost_sdk.Transport.Table.{IsTable, find-IsTable, update-IsTable}
use bifrost_sdk.Transport.Invariant.{
  IsSound, created-IsSound, deleted-IsSound, updated_receiver-IsSound, dispatch-IsSound,
}
use bifrost_sdk.Transport.Reach.{
  Step, created, deleted, dispatched, sent_packet, sent_reports, nack_timer, Reachable, start, next,
}

sent-IsSound :
    (t : RtcTransport) (s : RtpStreamSender) (ssrc : ℕ) (payload : List ℕ) (now_ms : ℕ)
    → find_stream ssrc t.senders ≡ some s
    → IsSound t
    → Ensures (sent t s ssrc payload now_ms) (λ r. IsSound r.0)
sent-IsSound t s ssrc payload now_ms e v =
    let p = packet_of ssrc t.test_seq ((t.timestamp + 100) % u32_mod) payload in
    Ensures-bind (SenderDefs.receive_packet s p now_ms) _ _ (
      Ensures-map (SenderDefs.receive_packet s p now_ms) _ _
        (received-IsSoundSender ssrc p now_ms v.seq_in s
          (find-IsTable IsSoundSender ssrc s t.senders v.senders_sound e))
        λ r _ h. record {
          receivers_sound = v.receivers_sound;
          senders_sound = update-IsTable IsSoundSender ssrc r.0 t.senders v.senders_sound h;
          seq_in = omega arith;
          timestamp_in = omega arith;
        })

on_send-IsSound :
    (t : RtcTransport) (block payload : List ℕ) (ssrc now_ms : ℕ)
    → length block ≡ block_size
    → ssrc < u32_mod
    → IsSound t
    → Ensures (on_send_packet t block ssrc payload now_ms) (λ r. IsSound r.0)
unfolding on_send_packet
on_send-IsSound t block payload ssrc now_ms b h v =
    elim (Option-cases (find_stream ssrc t.senders)) [
      | inl e ↦ rw (on_send_packet, e) v
      | inr (s, e) ↦ elim (Bool-cases (ltb block_size (header_size + length payload))) [
        | inl over ↦ rw (on_send_packet_over t s ssrc block payload now_ms e b (ground arith)) tt
        | inr fits ↦
            rw (on_send_packet_lem t s ssrc block payload now_ms e b (ground arith) h v.seq_in)
              (sent-IsSound t s ssrc payload now_ms e v)
      ]
    ]

module _ (round_quotient : ℕ → ℕ → ℕ) where
  report-IsSound :
      (ssrc : ℕ) (r : RtpStreamReceiver) (now_ms : ℕ)
      → IsSoundReceiver ssrc r
      → Ensures (send_receiver_report round_quotient r now_ms) (λ m. IsSoundReceiver ssrc m.0)
  unfolding send_receiver_report
  report-IsSound ssrc r now_ms v =
      Ensures-bind (get_rtcp_receiver_report round_quotient r now_ms) _ _
        (reported-IsSoundReceiver ssrc r now_ms v round_quotient)

  -- A number without an entry has none afterwards.
  reports-IsTable :
      (xs : List (ℕ × RtpStreamReceiver)) (now_ms : ℕ → ℕ)
      → IsTable IsSoundReceiver xs
      → Ensures (send_receiver_reports round_quotient xs now_ms) (λ m.
        IsTable IsSoundReceiver m.0
        × ((k : ℕ) → find_stream k xs ≡ none → find_stream k m.0 ≡ none))
  unfolding send_receiver_reports find_stream
  reports-IsTable [] now_ms t = (tt, λ k e. refl)
  reports-IsTable (x ∷ xs) now_ms t =
      Ensures-bind (send_receiver_report round_quotient x.1 (now_ms x.0)) _ _ (
        Ensures-map (send_receiver_report round_quotient x.1 (now_ms x.0)) _ _
          (report-IsSound x.0 x.1 (now_ms x.0) t.1)
          λ r _ h. Ensures-bind (send_receiver_reports round_quotient xs now_ms) _ _ (
            Ensures-map (send_receiver_reports round_quotient xs now_ms) _ _
              (reports-IsTable xs now_ms t.2)
              λ m _ (k, l). ((l x.0 t.0, h, k), λ j e. ground (arith, l j))))

module _ (begin : List (ℕ × RtpStreamReceiver) → Option (ℕ × RtpStreamReceiver))
    (begin_in : (xs : List (ℕ × RtpStreamReceiver))
      → Ensures (begin xs) (λ e. find_stream e.0 xs ≡ some e.1))
    (fractions : ℕ → ℕ) (round_quotient : ℕ → ℕ → ℕ) where
  sent_reports-IsSound :
      (t : RtcTransport) (now_ms : ℕ → ℕ)
      → IsSound t
      → Ensures (send_rtcp_packet fractions round_quotient t now_ms) (λ r. IsSound r.0)
  unfolding send_rtcp_packet
  sent_reports-IsSound t now_ms v =
      Ensures-bind (send_receiver_reports round_quotient t.receivers now_ms) _ _ (
        Ensures-map (send_receiver_reports round_quotient t.receivers now_ms) _ _
          (reports-IsTable round_quotient t.receivers now_ms v.receivers_sound)
          λ m _ h. record {
            receivers_sound = h.0;
            senders_sound = v.senders_sound;
            seq_in = v.seq_in;
            timestamp_in = v.timestamp_in;
          })

  Step-IsSound :
      (t t' : RtcTransport) → Step begin fractions round_quotient t t' → IsSound t → IsSound t'
  Step-IsSound t _ (created _ ssrc type is_address h) v = created-IsSound t ssrc type is_address h v
  Step-IsSound t _ (deleted _ ssrc) v = deleted-IsSound t ssrc v
  Step-IsSound t t' (dispatched _ _ bytes created_at now_ms packets events a b e) v =
      Ensures-eq e (λ r. IsSound r.0)
        (dispatch-IsSound begin begin_in fractions bytes a b t created_at now_ms v)
  Step-IsSound t t' (sent_packet _ _ block payload ssrc now_ms datagrams l h e) v =
      Ensures-eq e (λ r. IsSound r.0) (on_send-IsSound t block payload ssrc now_ms l h v)
  Step-IsSound t t' (sent_reports _ _ now_ms datagrams e) v =
      Ensures-eq e (λ r. IsSound r.0) (sent_reports-IsSound t now_ms v)
  Step-IsSound t _ (nack_timer _ ssrc now_ms r g e f) v = updated_receiver-IsSound t ssrc v _ (
      timed-IsSoundReceiver ssrc r now_ms
        (find-IsTable IsSoundReceiver ssrc r t.receivers v.receivers_sound e) g f)

  -- Whatever calls a client has taken since its construction, without a fault: the numbers of its receiving streams
  -- are all different, and so are those of its sending streams; each stream has the number that it stands
  -- under, counters within their ranges, and a NACK generator within its limits; the numbers of the packets
  -- to be sent are within their widths. (The first entry of a table, which an unknown number stands for, is in
  -- the table.)
  pub Reachable-IsSound :
      (t : RtcTransport) → Reachable begin fractions round_quotient t → IsSound t
  Reachable-IsSound _ start = record {
    receivers_sound = tt;
    senders_sound = tt;
    seq_in = omega arith;
    timestamp_in = omega arith;
  }
  Reachable-IsSound t (next t₀ _ r s) = Step-IsSound t₀ t s (Reachable-IsSound t₀ r)
