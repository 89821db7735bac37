-- ===== src/Nack/Requests.antt =====
-- What the generator asks for when a packet shows that others are missing.
use bifrost_sdk.Base.{ℕ, zero, suc, ◌≤◌, ◌<◌, ◌≢◌, List, [], ◌∷◌, u16_mod, add16, sub16}
use bifrost_sdk.Nack.Defs.{NackInfo, new_nack}

-- The n sequence numbers from seq on.
abbrev pub numbers : ℕ → ℕ → List ℕ
numbers seq zero = []
numbers seq (suc n) = seq ∷ numbers (add16 seq 1) n

abbrev pub entries : (ℕ → ℕ) → List ℕ → List NackInfo
entries created_at [] = []
entries created_at (seq ∷ rest) = new_nack (created_at seq) seq ∷ entries created_at rest

-- The entry lies at most k numbers before seq.
abbrev Before : ℕ → ℕ → NackInfo → Type 0
Before k seq n = (n.seq < u16_mod) × (n.seq ≢ seq) × (sub16 seq n.seq ≤ k)
