-- ===== src/TcpBuffer/Space.antt =====
-- `makeSpace` and `ensureWritableBytes`: they keep what is readable, and make the space.
use bifrost_sdk.Base.{
  ℕ, ◌+◌, ◌-◌, ◌^◌, ◌≤◌, ◌<◌, ◌≡◌, refl, ◌⊎◌, inl, inr, ltb, leb, if◌then◌else◌, none, some, length,
  add64, Returns, Returns-bind, arith,
}
use bifrost_sdk.TcpBuffer.Bytes.{
  resize, overwrite, slice, length-resize, length-overwrite, length-slice, slice-overwrite,
  slice-resize,
}
use bifrost_sdk.TcpBuffer.Defs.{
  TcpBuffer, cheap_prepend, readable_bytes, writable_bytes, contents, make_space,
  ensure_writable_bytes,
}

-- More bytes than any vector has.
abbrev pub max_size : ℕ
max_size = 2 ^ 63

-- The readable bytes stand between the space to prepend and the end of the vector.
unfoldable pub IsValid : TcpBuffer → Type 0
IsValid b =
    cheap_prepend ≤ b.reader_index
    × b.reader_index ≤ b.writer_index
    × b.writer_index ≤ length b.bytes
    × length b.bytes < max_size

pub leb-cases : (a b : ℕ) → (a ≤ b) ⊎ (b < a)
leb-cases a b = omega arith

-- Space for len more bytes, and the same contents.
unfoldable pub HasSpace : TcpBuffer → ℕ → TcpBuffer → Type 0
HasSpace b len b' = IsValid b' × len ≤ length b'.bytes - b'.writer_index × contents b' ≡ contents b

module _ (b : TcpBuffer) (len : ℕ) (v : IsValid b) where
  abbrev grown : TcpBuffer
  grown = record b { bytes = resize (b.writer_index + len) b.bytes }

  abbrev moved : TcpBuffer
  moved = record {
    bytes =
        overwrite b.bytes cheap_prepend
          (slice b.bytes b.reader_index (b.writer_index - b.reader_index));
    reader_index = cheap_prepend;
    writer_index = cheap_prepend + (b.writer_index - b.reader_index);
  }

  make_space-grown :
      length b.bytes + len + cheap_prepend < max_size
      → length b.bytes - b.writer_index + b.reader_index < len + cheap_prepend
      → make_space b len ≡ some grown
  unfolding IsValid make_space
  make_space-grown h k =
      let a : add64 b.writer_index len ≡ b.writer_index + len = omega arith in rw a (ground arith)

  make_space-moved :
      length b.bytes + len + cheap_prepend < max_size
      → length b.bytes - b.writer_index < len
      → len + cheap_prepend ≤ length b.bytes - b.writer_index + b.reader_index
      → make_space b len ≡ some moved
  unfolding IsValid make_space
  make_space-moved h k l =
      let rd : readable_bytes b ≡ b.writer_index - b.reader_index = omega arith in
      let a : add64 cheap_prepend (b.writer_index - b.reader_index)
          ≡ cheap_prepend + (b.writer_index - b.reader_index) =
        omega arith in
      rw rd (rw a (ground arith))

  grown-HasSpace :
      length b.bytes + len + cheap_prepend < max_size
      → length b.bytes - b.writer_index < len
      → HasSpace b len grown
  unfolding IsValid HasSpace
  grown-HasSpace h k =
      let rd : readable_bytes b ≡ b.writer_index - b.reader_index = omega arith in
      let l : length grown.bytes ≡ b.writer_index + len =
        length-resize (b.writer_index + len) b.bytes in
      (
        (omega arith, omega arith, omega arith, omega arith),
        omega arith,
        rw rd (
            slice-resize (b.writer_index + len) b.bytes b.reader_index
              (b.writer_index - b.reader_index) (omega arith) (omega arith)),
      )

  moved-HasSpace :
      length b.bytes + len + cheap_prepend < max_size
      → len + cheap_prepend ≤ length b.bytes - b.writer_index + b.reader_index
      → HasSpace b len moved
  unfolding IsValid HasSpace
  moved-HasSpace h k =
      let rd : readable_bytes b ≡ b.writer_index - b.reader_index = omega arith in
      let rd' : readable_bytes moved ≡ b.writer_index - b.reader_index = omega arith in
      let l : length moved.bytes ≡ length b.bytes =
        length-overwrite b.bytes cheap_prepend
          (slice b.bytes b.reader_index (b.writer_index - b.reader_index)) in
      let l' : length (slice b.bytes b.reader_index (b.writer_index - b.reader_index))
          ≡ b.writer_index - b.reader_index =
        length-slice b.bytes b.reader_index (b.writer_index - b.reader_index) (omega arith) in
      (
        (omega arith, omega arith, omega arith, omega arith),
        omega arith,
        rw (rd, rd')
            (slice-overwrite b.bytes
              (slice b.bytes b.reader_index (b.writer_index - b.reader_index)) cheap_prepend 0 refl
              (omega arith) (omega arith)),
      )

  make_space_fits :
      length b.bytes + len + cheap_prepend < max_size
      → length b.bytes - b.writer_index < len
      → Returns (make_space b len) (HasSpace b len)
  make_space_fits h k =
      elim (leb-cases (len + cheap_prepend) (length b.bytes - b.writer_index + b.reader_index)) [
        | inl le ↦ rw (make_space-moved h k le) (moved-HasSpace h le)
        | inr lt ↦ rw (make_space-grown h lt) (grown-HasSpace h k)
      ]

  pub ensure_writable_bytes_fits :
      length b.bytes + len + cheap_prepend < max_size
      → Returns (ensure_writable_bytes b len) (HasSpace b len)
  unfolding ensure_writable_bytes IsValid HasSpace
  ensure_writable_bytes_fits h =
      Returns-bind (if ltb (writable_bytes b) len then make_space b len else some b)
        (λ b'. if leb len (writable_bytes b') then some b' else none) (HasSpace b len)
        (HasSpace b len) (ground (arith, make_space_fits h)) (λ b' _ s. ground arith)
