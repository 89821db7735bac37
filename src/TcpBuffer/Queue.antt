-- ===== src/TcpBuffer/Queue.antt =====
-- The buffer of the TCP connections as a queue of bytes: `append` puts behind, `retrieve` takes off
-- the front.
use bifrost_sdk.Base.{
  ℕ, suc, ◌+◌, ◌-◌, ◌*◌, ◌≤◌, ◌<◌, ◌≡◌, refl, sym, ◌∙◌, ap, inl, inr, true, leb, some, List, [],
  ◌∷◌, ◌++◌, length, drop, replicate, length-replicate, add64, Returns, Returns-bind, arith,
}
use bifrost_sdk.TcpBuffer.Bytes.{
  overwrite, length-overwrite, length-slice, slice-overwrite, drop-slice, slice-first,
}
use bifrost_sdk.TcpBuffer.Defs.{
  TcpBuffer, cheap_prepend, create, readable_bytes, contents, retrieve_all, retrieve, peek_uint16,
  ensure_writable_bytes, has_written, append,
}
use bifrost_sdk.TcpBuffer.Space.{max_size, IsValid, HasSpace, leb-cases, ensure_writable_bytes_fits}

-- The bytes put behind the contents of b, without a fault.
Extended : TcpBuffer → List ℕ → TcpBuffer → Type 0
Extended b new_bytes b' = IsValid b' × (contents b' ≡ contents b ++ new_bytes)

abbrev filled : TcpBuffer → List ℕ → TcpBuffer
filled b new_bytes = record b { bytes = overwrite b.bytes b.writer_index new_bytes }

abbrev written : TcpBuffer → List ℕ → TcpBuffer
written b new_bytes = record (filled b new_bytes) {
  writer_index = b.writer_index + length new_bytes;
}

has_written_eq :
    (b : TcpBuffer) (new_bytes : List ℕ)
    → IsValid b
    → length new_bytes ≤ length b.bytes - b.writer_index
    → has_written (filled b new_bytes) (length new_bytes) ≡ some (written b new_bytes)
unfolding IsValid has_written
has_written_eq b new_bytes v h =
    let l : length (filled b new_bytes).bytes ≡ length b.bytes =
      length-overwrite b.bytes b.writer_index new_bytes in
    let e : add64 b.writer_index (length new_bytes) ≡ b.writer_index + length new_bytes =
      omega arith in
    rw (l, e) (ground arith)

written-Extended :
    (b : TcpBuffer) (new_bytes : List ℕ)
    → IsValid b
    → length new_bytes ≤ length b.bytes - b.writer_index
    → Extended b new_bytes (written b new_bytes)
unfolding IsValid Extended
written-Extended b new_bytes v h =
    let l : length (written b new_bytes).bytes ≡ length b.bytes =
      length-overwrite b.bytes b.writer_index new_bytes in
    let rd : readable_bytes b ≡ b.writer_index - b.reader_index = omega arith in
    (
      (omega arith, omega arith, omega arith, omega arith),
      rw rd (
          slice-overwrite b.bytes new_bytes b.reader_index (b.writer_index - b.reader_index)
            (omega arith) (omega arith) (omega arith)),
    )

-- Appending to a well-formed buffer whose vector stays below 2^63 bytes raises no assertion, leaves
-- the buffer well-formed, and puts the new bytes behind the readable ones, which stay, whether the
-- vector has room for them, is grown, or the readable bytes are moved to its front.
pub append_lem :
    (b : TcpBuffer) (new_bytes : List ℕ)
    → IsValid b
    → length b.bytes + length new_bytes + cheap_prepend < max_size
    → Returns (append b new_bytes) (λ b'. IsValid b' × (contents b' ≡ contents b ++ new_bytes))
unfolding append HasSpace Extended
append_lem b new_bytes v h =
    Returns-bind (ensure_writable_bytes b (length new_bytes))
      (λ b'. has_written (filled b' new_bytes) (length new_bytes)) (HasSpace b (length new_bytes))
      (Extended b new_bytes) (ensure_writable_bytes_fits b (length new_bytes) v h)
      (λ b' _ s.
        let x = written-Extended b' new_bytes s.0 s.1 in
        rw (has_written_eq b' new_bytes s.0 s.1) (x.0, x.1 ∙ ap (λ c. c ++ new_bytes) s.2))

module _ (b : TcpBuffer) (len : ℕ) (v : IsValid b) where
  abbrev skipped : TcpBuffer
  skipped = record b { reader_index = b.reader_index + len }

  skipped-contents :
      len < b.writer_index - b.reader_index → contents skipped ≡ drop len (contents b)
  unfolding IsValid
  skipped-contents h =
      let rd : readable_bytes b ≡ b.writer_index - b.reader_index = omega arith in
      let rd' : readable_bytes skipped ≡ b.writer_index - b.reader_index - len = omega arith in
      rw (rd, rd')
        (sym (
          drop-slice b.bytes b.reader_index (b.writer_index - b.reader_index - len) len refl
            (omega arith)))

  retrieve_all-contents :
      len ≡ b.writer_index - b.reader_index → contents (retrieve_all b) ≡ drop len (contents b)
  unfolding IsValid retrieve_all
  retrieve_all-contents h =
      let rd : readable_bytes b ≡ b.writer_index - b.reader_index = omega arith in
      rw rd (sym (drop-slice b.bytes b.reader_index 0 len refl (omega arith)))

  retrieve-some : len < b.writer_index - b.reader_index → retrieve b len ≡ some skipped
  unfolding IsValid retrieve
  retrieve-some h =
      let e : add64 b.reader_index len ≡ b.reader_index + len = omega arith in rw e (ground arith)

module _ (b : TcpBuffer) (len : ℕ) (v : IsValid b) where
  retrieve-all : len ≡ b.writer_index - b.reader_index → retrieve b len ≡ some (retrieve_all b)
  unfolding IsValid retrieve
  retrieve-all h = ground arith

  retrieve_all-IsValid : IsValid (retrieve_all b)
  unfolding IsValid retrieve_all
  retrieve_all-IsValid = (omega arith, omega arith, omega arith, omega arith)

-- Retrieving at most as many bytes as are readable raises no assertion, leaves the buffer
-- well-formed, and takes exactly the first bytes off the readable ones.
pub retrieve_lem :
    (b : TcpBuffer) (len : ℕ)
    → IsValid b
    → len ≤ length (contents b)
    → Returns (retrieve b len) (λ b'. IsValid b' × (contents b' ≡ drop len (contents b)))
unfolding IsValid retrieve retrieve_all
retrieve_lem b len v h =
    let rd : readable_bytes b ≡ b.writer_index - b.reader_index = omega arith in
    let l : length (contents b) ≡ readable_bytes b =
      length-slice b.bytes b.reader_index (readable_bytes b) (omega arith) in
    elim (leb-cases (b.writer_index - b.reader_index) len) [
      | inl le ↦
          let e : len ≡ b.writer_index - b.reader_index = omega arith in
          rw (retrieve-all b len v e)
            (retrieve_all-IsValid b len v, retrieve_all-contents b len v e)
      | inr lt ↦
          rw (retrieve-some b len v lt)
            ((omega arith, omega arith, omega arith, omega arith), skipped-contents b len v lt)
    ]

pub create-IsValid :
    (n : ℕ) → n + cheap_prepend < max_size → IsValid (create n) × (contents (create n) ≡ [])
unfolding IsValid create
create-IsValid n h =
    let l : length (replicate {A = ℕ} (cheap_prepend + n) 0) ≡ cheap_prepend + n =
      length-replicate {A = ℕ} (cheap_prepend + n) 0 in
    ((omega arith, omega arith, omega arith, omega arith), refl)

-- With two or more readable bytes in a well-formed buffer, `peekUint16` reads the first two, the
-- high one first.
pub peek_uint16_lem :
    (b : TcpBuffer) (high low : ℕ) (rest : List ℕ)
    → IsValid b
    → contents b ≡ high ∷ low ∷ rest
    → peek_uint16 b ≡ some (high * 256 + low)
unfolding IsValid peek_uint16
peek_uint16_lem b high low rest v e =
    let l : length (contents b) ≡ readable_bytes b =
      length-slice b.bytes b.reader_index (readable_bytes b) (omega arith) in
    let m : length (contents b) ≡ suc (suc (length rest)) = ap length e in
    let g = slice-first b.bytes b.reader_index (readable_bytes b) refl e in
    let t : leb 2 (readable_bytes b) ≡ true = ground arith in rw (t, g.0, g.1) refl
