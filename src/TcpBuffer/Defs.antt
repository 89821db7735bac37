-- ===== src/TcpBuffer/Defs.antt =====
-- `CoreIO::Buffer`. An assertion that fails is a fault.
use bifrost_sdk.Base.{
  ℕ, ◌+◌, ◌*◌, ltb, ◌==◌, leb, if◌then◌else◌, Option, none, some, ◌>>=◌, List, length, replicate,
  get_elem?, add64, sub64,
}
use bifrost_sdk.TcpBuffer.Bytes.{resize, overwrite, slice}

abbrev pub cheap_prepend : ℕ
cheap_prepend = 8

pub record TcpBuffer : Type 0 where
  pub bytes : List ℕ
  pub reader_index : ℕ
  pub writer_index : ℕ

-- `explicit Buffer(size_t initialSize)`
unfoldable pub create : ℕ → TcpBuffer
create initial_size = record {
  bytes = replicate (cheap_prepend + initial_size) 0;
  reader_index = cheap_prepend;
  writer_index = cheap_prepend;
}

abbrev pub readable_bytes : TcpBuffer → ℕ
readable_bytes b = sub64 b.writer_index b.reader_index

abbrev pub writable_bytes : TcpBuffer → ℕ
writable_bytes b = sub64 (length b.bytes) b.writer_index

abbrev pub prependable_bytes : TcpBuffer → ℕ
prependable_bytes b = b.reader_index

-- The bytes from `peek()` on that are readable.
abbrev pub contents : TcpBuffer → List ℕ
contents b = slice b.bytes b.reader_index (readable_bytes b)

unfoldable pub retrieve_all : TcpBuffer → TcpBuffer
retrieve_all b = record b { reader_index = cheap_prepend; writer_index = cheap_prepend }

unfoldable pub retrieve : TcpBuffer → ℕ → Option TcpBuffer
unfolding retrieve_all
retrieve b len =
    if leb len (readable_bytes b)
    then some (
        if ltb len (readable_bytes b)
        then record b { reader_index = add64 b.reader_index len }
        else retrieve_all b)
    else none

-- The last assertion of the source, that the readable bytes are as many as before, is the third
-- test here.
unfoldable pub make_space : TcpBuffer → ℕ → Option TcpBuffer
make_space b len =
    if ltb (add64 (writable_bytes b) (prependable_bytes b)) (add64 len cheap_prepend)
    then some (record b { bytes = resize (add64 b.writer_index len) b.bytes })
    else (if ltb cheap_prepend b.reader_index
        then (let moved = record b {
          bytes = overwrite b.bytes cheap_prepend (contents b);
          reader_index = cheap_prepend;
          writer_index = add64 cheap_prepend (readable_bytes b);
        } in
            if readable_bytes b == readable_bytes moved then some moved else none)
        else none)

unfoldable pub ensure_writable_bytes : TcpBuffer → ℕ → Option TcpBuffer
ensure_writable_bytes b len =
    (if ltb (writable_bytes b) len then make_space b len else some b) >>= λ b'.
    if leb len (writable_bytes b') then some b' else none

unfoldable pub has_written : TcpBuffer → ℕ → Option TcpBuffer
has_written b len =
    if leb len (writable_bytes b)
    then some (record b { writer_index = add64 b.writer_index len })
    else none

-- `append(data, len)`, with the bytes and their number in one list.
unfoldable pub append : TcpBuffer → List ℕ → Option TcpBuffer
append b new_bytes = ensure_writable_bytes b (length new_bytes) >>= λ b'.
    has_written (record b' { bytes = overwrite b'.bytes b'.writer_index new_bytes })
      (length new_bytes)

-- `peekUint16`: the first two readable bytes, the high one first.
unfoldable pub peek_uint16 : TcpBuffer → Option ℕ
peek_uint16 b =
    if leb 2 (readable_bytes b)
    then (get_elem? b.bytes b.reader_index >>= λ high.
        get_elem? b.bytes (b.reader_index + 1) >>= λ low. some (high * 256 + low))
    else none
