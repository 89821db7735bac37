-- ===== src/TcpBuffer/Tests.antt =====
-- The buffer at concrete inputs.
use bifrost_sdk.Base.{◌≡◌, refl, [], ◌∷◌, Returns, arith, some}
use bifrost_sdk.TcpBuffer.Defs.{
  TcpBuffer, append, retrieve, contents, ensure_writable_bytes, make_space, has_written,
}
use bifrost_sdk.TcpBuffer.Space.{IsValid}
use bifrost_sdk.TcpBuffer.Queue.{append_lem, retrieve_lem}

-- Three bytes of space, of which the first was read.
abbrev half_read : TcpBuffer
half_read = record {
  bytes = 0 ∷ 0 ∷ 0 ∷ 0 ∷ 0 ∷ 0 ∷ 0 ∷ 0 ∷ 1 ∷ 2 ∷ 3 ∷ [];
  reader_index = 9;
  writer_index = 11;
}

half_read-IsValid : IsValid half_read
unfolding IsValid
half_read-IsValid = (omega arith, omega arith, omega arith, omega arith)

-- One more byte moves the contents to the front.
append_moves :
    append half_read (4 ∷ [])
    ≡ some record {
      bytes = 0 ∷ 0 ∷ 0 ∷ 0 ∷ 0 ∷ 0 ∷ 0 ∷ 0 ∷ 2 ∷ 3 ∷ 4 ∷ [];
      reader_index = 8;
      writer_index = 11;
    }
unfolding append ensure_writable_bytes make_space has_written
append_moves = refl

append_lem_example :
    Returns (append half_read (4 ∷ 5 ∷ [])) (λ b. IsValid b × (contents b ≡ 2 ∷ 3 ∷ 4 ∷ 5 ∷ []))
append_lem_example = append_lem half_read (4 ∷ 5 ∷ []) half_read-IsValid (omega arith)

retrieve_lem_example : Returns (retrieve half_read 1) (λ b. IsValid b × (contents b ≡ 3 ∷ []))
retrieve_lem_example = retrieve_lem half_read 1 half_read-IsValid (omega arith)
