-- ===== src/Packet/Built.antt =====
-- What is in the memory of a packet after it has been put together.
use bifrost_sdk.Base.{
  ℕ, zero, suc, ◌+◌, ◌%◌, ◌≤◌, ◌<◌, ◌≡◌, refl, none, some, ◌>>=◌, List, [], ◌∷◌, ◌++◌, length, drop,
  length-drop, replicate, u32_mod, add64, arith,
}
use bifrost_sdk.Packet.Parse.{header_size}
use bifrost_sdk.Packet.Build.{block_size, write_bytes, new_rtp_packet, copy_payload}

-- A write within the block replaces the bytes behind the offset, and no others.
pub write_bytes_lem :
    (xs bytes ys : List ℕ) (i : ℕ)
    → i ≡ length xs
    → length bytes ≤ length ys
    → write_bytes (xs ++ ys) i bytes ≡ some (xs ++ (bytes ++ drop (length bytes) ys))
unfolding write_bytes
write_bytes_lem [] [] ys i e h = refl
write_bytes_lem [] (b ∷ bytes) [] i e h = absurd (omega arith)
write_bytes_lem [] (b ∷ bytes) (y ∷ ys) zero e h =
    rw (write_bytes_lem [] bytes ys 0 refl (omega arith)) refl
write_bytes_lem [] (b ∷ bytes) (y ∷ ys) (suc i) e h = absurd (omega arith)
write_bytes_lem (x ∷ xs) [] ys i e h = refl
write_bytes_lem (x ∷ xs) (b ∷ bytes) ys zero e h = absurd (omega arith)
write_bytes_lem (x ∷ xs) (b ∷ bytes) ys (suc i) e h =
    rw (write_bytes_lem xs (b ∷ bytes) ys i (omega arith) h) refl

-- A write over the end of the block is a fault.
pub write_bytes_over :
    (block bytes : List ℕ) (i : ℕ)
    → i ≤ length block
    → length block < i + length bytes
    → write_bytes block i bytes ≡ none
unfolding write_bytes
write_bytes_over block [] i l h = absurd (omega arith)
write_bytes_over [] (b ∷ bytes) i l h = refl
write_bytes_over (x ∷ block) (b ∷ bytes) zero l h =
    rw (write_bytes_over block bytes 0 (omega arith) (omega arith)) refl
write_bytes_over (x ∷ block) (b ∷ bytes) (suc i) l h =
    rw (write_bytes_over block (b ∷ bytes) i (omega arith) (omega arith)) refl

-- The constructor and `CopyPayload` on a block: zeros, the payload, and what the block had behind them.
pub copy_payload-new :
    (block payload : List ℕ)
    → length block ≡ block_size
    → header_size + length payload ≤ block_size
    → (new_rtp_packet block >>= λ q. copy_payload q payload)
      ≡ some record {
        bytes =
            replicate header_size 0 ++ (payload ++ drop (length payload) (drop header_size block));
        size = header_size + length payload;
        header_extension = none;
        payload = none;
        payload_length = 0;
        payload_padding = 0;
      }
unfolding new_rtp_packet copy_payload
copy_payload-new block payload e h =
    let n : (0 + add64 header_size (length payload)) % u32_mod ≡ header_size + length payload =
      omega arith in
    rw (write_bytes_lem [] (replicate header_size 0) block 0 refl (omega arith)) (
      rw
        (write_bytes_lem (replicate header_size 0) payload (drop header_size block) header_size refl
          (omega (arith, length-drop header_size block)))
        (rw n refl))

-- With a payload that is too long for the block, `CopyPayload` writes over its end.
pub copy_payload_over :
    (block payload : List ℕ)
    → length block ≡ block_size
    → block_size < header_size + length payload
    → (new_rtp_packet block >>= λ q. copy_payload q payload) ≡ none
unfolding new_rtp_packet copy_payload
copy_payload_over block payload e h =
    rw (write_bytes_lem [] (replicate header_size 0) block 0 refl (omega arith)) (
      rw
        (write_bytes_over (replicate header_size 0 ++ drop header_size block) payload header_size
          (omega (arith, length-drop header_size block))
          (omega (arith, length-drop header_size block)))
        refl)
