-- ===== src/Bundle/Part.antt =====
-- src/hg_bundle.rs: `BundlePartWriter` and `BundlePartReader`, the data of a part in chunks.
pub mod Write
pub mod Read
pub mod RoundTrip
use git_cinnabar.Common.{
  ℕ, zero, suc, ◌+◌, ◌-◌, ◌%◌, ◌^◌, Bool, ◌||◌, List, [], ◌∷◌, ◌++◌, Bytes, Option, none, some,
  ◌>>=◌, ◌==◌, ltb, leb, if◌then◌else◌, is_empty, length, take, drop, min,
}
use git_cinnabar.Bundle.{write_u32, read_u32, write_bundle2_chunk}

-- `bundle2_buf` is there in the second version of the format only.
pub record BundlePartWriter : Type 0 where
  pub writer : Bytes
  pub bundle2_buf : Option Bytes

-- `BundlePartWriter::new`, for the second version if `v2`.
unfoldable pub new : Bool → Bytes → BundlePartWriter
new v2 writer = record { writer = writer; bundle2_buf = if v2 then some [] else none }

-- The loop of `write` on the writer and the buffer; `none` is fuel that was not enough.
unfoldable pub write_chunks : ℕ → ℕ → Bytes → Bytes → Bytes → Option BundlePartWriter
write_chunks zero chunk_size writer bundle2_buf buf = none
write_chunks (suc fuel) chunk_size writer bundle2_buf buf =
    let remaining = chunk_size - length bundle2_buf in
    let rest =
      write_chunks fuel chunk_size
        (writer ++ (write_u32 (chunk_size % 2 ^ 32) ++ (bundle2_buf ++ take remaining buf))) []
        (drop remaining buf) in
    if leb chunk_size (length bundle2_buf + length buf)
    then rest
    else some (record { writer = writer; bundle2_buf = some (bundle2_buf ++ buf) })

-- `write`: a round of the loop takes a byte at least, so that the number of bytes is fuel enough.
unfoldable pub write : ℕ → BundlePartWriter → Bytes → Option BundlePartWriter
write chunk_size w buf = elim w.bundle2_buf [
  | some bundle2_buf ↦ write_chunks (suc (length buf)) chunk_size w.writer bundle2_buf buf
  | none ↦ some (record { writer = w.writer ++ buf; bundle2_buf = none })
]

-- `flush`, which is `flush_buf_as_chunk`.
unfoldable pub flush : BundlePartWriter → Option BundlePartWriter
flush w = elim w.bundle2_buf [
  | none ↦ some w
  | some bundle2_buf ↦ do
    chunk ← write_bundle2_chunk bundle2_buf
    some (record { writer = w.writer ++ chunk; bundle2_buf = some [] })
]

-- `Drop`: the buffer is flushed, and an empty chunk ends the part.
unfoldable pub drop_writer : BundlePartWriter → Option Bytes
drop_writer w = do
  flushed ← flush w
  elim w.bundle2_buf [
    | none ↦ some flushed.writer
    | some _ ↦ do ending ← write_bundle2_chunk []; some (flushed.writer ++ ending)
  ]

-- `write_all` of one buffer after the other; a write takes all of its buffer.
unfoldable pub write_all : ℕ → BundlePartWriter → List Bytes → Option BundlePartWriter
write_all chunk_size w [] = some w
write_all chunk_size w (buf ∷ bufs) = write chunk_size w buf >>= λ w'. write_all chunk_size w' bufs

-- The reader of a part in the second version of the format.
pub record BundlePartReader : Type 0 where
  pub reader : Bytes
  pub remaining : ℕ

-- The loop of `read` into a buffer of `dest` bytes, on a reader that gives all the bytes it is asked
-- for while it has them; `none` is an error, or fuel that was not enough.
unfoldable pub read_chunks : ℕ → ℕ → BundlePartReader → Option (Bytes × BundlePartReader)
read_chunks zero dest r = none
read_chunks (suc fuel) dest r =
    let data_read = take (min r.remaining dest) r.reader in
    let left = drop (min r.remaining dest) r.reader in
    let remaining = r.remaining - length data_read in
    let next = if remaining == 0 then read_u32 left else some (remaining, left) in
    let rest = next >>= λ n.
    read_chunks fuel (dest - length data_read) (record { reader = n.1; remaining = n.0 }) >>= λ m.
    some (data_read ++ m.0, m.1) in
    if r.remaining == 0 || dest == 0
    then some ([], r)
    else if length data_read == 0
    then (do
      (length_next, reader) ← next
      some ([], record { reader = reader; remaining = length_next }))
    else rest

unfoldable pub read : ℕ → BundlePartReader → Option (Bytes × BundlePartReader)
read dest r = read_chunks (suc dest) dest r
