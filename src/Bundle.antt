-- ===== src/Bundle.antt =====
-- src/hg_bundle.rs and src/util.rs: reading and writing the chunks of a bundle. A reader is the bytes
-- that are left in it, a writer the bytes that were written to it.
pub mod Chunk
pub mod Frames
pub mod Part
pub mod Diff
pub mod Info
pub mod Spec
pub mod Stream
pub mod Rev
use git_cinnabar.Common.{
  ℕ, zero, suc, ◌+◌, ◌-◌, ◌*◌, ◌/◌, ◌%◌, ◌^◌, Bool, true, false, ◌&&◌, List, [], ◌∷◌, ◌++◌, Bytes,
  Option, none, some, ◌>>=◌, ◌==◌, ltb, leb, if◌then◌else◌, is_empty, length, take, drop, min,
  Outcome, ok, error, panic,
}

-- `write_u32::<BigEndian>`.
unfoldable pub write_u32 : ℕ → Bytes
write_u32 n = n / 2 ^ 24 % 2 ^ 8 ∷ n / 2 ^ 16 % 2 ^ 8 ∷ n / 2 ^ 8 % 2 ^ 8 ∷ n % 2 ^ 8 ∷ []

-- `read_u32::<BigEndian>`; `none` is the end of the input.
unfoldable pub read_u32 : Bytes → Option (ℕ × Bytes)
read_u32 (a ∷ (b ∷ (c ∷ (d ∷ rest)))) = some (a * 2 ^ 24 + b * 2 ^ 16 + c * 2 ^ 8 + d, rest)
read_u32 _ = none

-- `ReadExt::read_exactly`.
unfoldable pub read_exactly : ℕ → Bytes → Option (Bytes × Bytes)
read_exactly len reader =
    if ltb (length reader) len then none else some (take len reader, drop len reader)

-- A chunk of a changegroup; its length counts its own four bytes. A short read is not an error.
unfoldable pub read_rev_chunk : Bytes → Outcome (Bytes × Bytes)
read_rev_chunk reader = elim (read_u32 reader) [
  | none ↦ panic
  | some (len, rest) ↦
      if len == 0
      then ok ([], rest)
      else if ltb len 4
      then panic
      else ok (take (len - 4) rest, drop (len - 4) rest)
]

unfoldable pub read_bundle2_chunk : Bytes → Option (Bytes × Bytes)
read_bundle2_chunk reader = do
  (len, rest) ← read_u32 reader
  if len == 0 then some ([], rest) else read_exactly len rest

-- `none` is a chunk whose length is no u32: a panic.
unfoldable pub write_bundle2_chunk : Bytes → Option Bytes
write_bundle2_chunk chunk =
    if ltb (length chunk) (2 ^ 32) then some (write_u32 (length chunk) ++ chunk) else none

-- The number of bytes that were skipped, and the rest.
unfoldable pub skip_bundle2_chunk : Bytes → Option (ℕ × Bytes)
skip_bundle2_chunk reader = do
  (len, rest) ← read_u32 reader
  if len == 0 then some (0, rest) else some (length (take len rest), drop len rest)
