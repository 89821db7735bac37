-- ===== src/Transport/Tables.antt =====
-- The tables of streams, as maps from a number to a stream.
use bifrost_sdk.Base.{
  ℕ, ◌≡◌, ◌==◌, true, false, if◌then◌else◌, Option, none, some, List, [], ◌∷◌, arith,
}
use bifrost_sdk.Sender.Defs.{new_rtp_stream_sender}
use bifrost_sdk.Transport.Defs.{
  RtcTransport, find_stream, update_stream, erase_stream, new_rtp_stream_receiver, StreamType,
  stream_sender, stream_receiver, create_rtp_stream, delete_rtp_stream,
}

module _ {ℓ} {A : Type ℓ} where
  pub find-update_stream :
      (k : ℕ) (a b : A) (xs : List (ℕ × A))
      → find_stream k xs ≡ some b
      → find_stream k (update_stream k a xs) ≡ some a
  unfolding find_stream update_stream
  find-update_stream k a b [] e = ground arith
  find-update_stream k a b (x ∷ xs) e = ground (arith, find-update_stream k a b xs)

-- What a table holds under k, once a stream is created under ssrc: what it held, or else the new one.
abbrev pub found_or_new {ℓ} : {A : Type ℓ} → Option A → ℕ → ℕ → A → Option A
found_or_new (some a) ssrc k new = some a
found_or_new none ssrc k new = if ssrc == k then some new else none

-- Creating a stream at a valid address adds a new one of its type where the table had none under the
-- number, changes nothing that was found before, and leaves the other table as it is. At an address
-- that is not valid nothing changes.
pub create_rtp_stream_lem :
    (t : RtcTransport) (ssrc k : ℕ)
    → (find_stream k (create_rtp_stream t ssrc stream_receiver true).receivers
        ≡ found_or_new (find_stream k t.receivers) ssrc k (new_rtp_stream_receiver ssrc))
      × ((create_rtp_stream t ssrc stream_receiver true).senders ≡ t.senders)
      × (find_stream k (create_rtp_stream t ssrc stream_sender true).senders
          ≡ found_or_new (find_stream k t.senders) ssrc k (new_rtp_stream_sender true ssrc 16000))
      × ((create_rtp_stream t ssrc stream_sender true).receivers ≡ t.receivers)
      × (create_rtp_stream t ssrc stream_receiver false ≡ t)
      × (create_rtp_stream t ssrc stream_sender false ≡ t)
unfolding create_rtp_stream find_stream
create_rtp_stream_lem t ssrc k = ground arith

-- Under a number that neither table has, creating a stream of either type and deleting it leaves the
-- transport as it was.
pub delete-create_rtp_stream :
    (t : RtcTransport) (ssrc : ℕ) (type : StreamType)
    → find_stream ssrc t.senders ≡ none
    → find_stream ssrc t.receivers ≡ none
    → delete_rtp_stream (create_rtp_stream t ssrc type true) ssrc ≡ t
unfolding delete_rtp_stream create_rtp_stream find_stream erase_stream
delete-create_rtp_stream t ssrc stream_sender e f = ground arith
delete-create_rtp_stream t ssrc stream_receiver e f = ground arith
