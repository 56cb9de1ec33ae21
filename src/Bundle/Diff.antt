-- ===== src/Bundle/Diff.antt =====
-- src/hg_bundle.rs: the patches of a revision in a changegroup, as they are written and iterated.
pub mod RoundTrip
use git_cinnabar.Common.{
  ℕ, zero, suc, ◌^◌, Bool, ◌&&◌, List, [], ◌∷◌, ◌++◌, Bytes, Option, none, some, ◌>>=◌, ltb,
  if◌then◌else◌, length, take, drop, Outcome, ok, error, panic,
}
use git_cinnabar.Bundle.{write_u32, read_u32}
use git_cinnabar.Xdiff.{PatchInfo}

-- The three numbers before the data of a patch; `none` is a number that is no u32: a panic.
patch_header : PatchInfo → Option Bytes
patch_header p =
    if ltb p.start (2 ^ 32) && (ltb p.end_pos (2 ^ 32) && ltb (length p.content) (2 ^ 32))
    then some (write_u32 p.start ++ (write_u32 p.end_pos ++ write_u32 (length p.content)))
    else none

-- `create_chunk_data`, on the patches that `textdiff` gives.
unfoldable pub create_chunk_data : List PatchInfo → Option Bytes
unfolding patch_header
create_chunk_data [] = some []
create_chunk_data (p ∷ patch) = patch_header p >>= λ header.
    create_chunk_data patch >>= λ rest. some (header ++ (p.content ++ rest))

-- Behind the three numbers: `error` is `die!`.
diff_part : ℕ → ℕ → ℕ → Bytes → Outcome (Option (PatchInfo × Bytes))
diff_part start end_pos len rest =
    if ltb (length rest) len
    then error
    else ok
        (some (record { start = start; end_pos = end_pos; content = take len rest }, drop len rest))

read_header : Bytes → Option (ℕ × ℕ × ℕ × Bytes)
read_header buf = do
  (start, r1) ← read_u32 buf
  (end_pos, r2) ← read_u32 r1
  (len, r3) ← read_u32 r2
  some (start, end_pos, len, r3)

-- `RevDiffIter::next`: fewer than twelve bytes are an error, if they are not none.
unfoldable pub next : Bytes → Outcome (Option (PatchInfo × Bytes))
unfolding diff_part read_header
next [] = ok none
next (c ∷ buf) = elim (read_header (c ∷ buf)) [
  | none ↦ error
  | some (start, end_pos, len, rest) ↦ diff_part start end_pos len rest
]

-- All the patches; `panic` is fuel that was not enough.
unfoldable pub iter_diff : ℕ → Bytes → Outcome (List PatchInfo)
iter_diff zero buf = panic
iter_diff (suc fuel) buf = elim (next buf) [
  | ok none ↦ ok []
  | ok (some (p, rest)) ↦ elim (iter_diff fuel rest) [
    | ok patch ↦ ok (p ∷ patch)
    | error ↦ error
    | panic ↦ panic
  ]
  | error ↦ error
  | panic ↦ panic
]
