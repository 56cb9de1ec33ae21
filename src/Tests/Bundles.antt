-- ===== src/Tests/Bundles.antt =====
-- Chunks, parts and patches of bundles, on small inputs: the chunk size of src/hg_bundle.rs in its
-- tests is 8 too.
use git_cinnabar.Common.{
  ℕ, ◌≡◌, refl, true, List, [], ◌∷◌, ◌++◌, Bytes, codes, concat, some, ok, arith, length,
}
use git_cinnabar.Bundle.{write_u32, read_u32, write_bundle2_chunk}
use git_cinnabar.Bundle.Diff.{create_chunk_data, iter_diff}
use git_cinnabar.Bundle.Diff.RoundTrip.{iter_diff-create_chunk_data}
use git_cinnabar.Bundle.Frames.{frames}
use git_cinnabar.Bundle.Part.{
  BundlePartWriter, BundlePartReader, new, write, write_all, write_chunks, drop_writer, read,
}
use git_cinnabar.Bundle.Part.Read.{Pending, read-Pending}
use git_cinnabar.Bundle.Part.RoundTrip.{part_round_trip}
use git_cinnabar.Bundle.Part.Write.{Holds}
use git_cinnabar.Xdiff.{PatchInfo}

abbrev pieces : List Bytes
pieces = codes "abcdef" ∷ codes "ghij" ∷ []

abbrev written : BundlePartWriter
written = record { writer = write_u32 8 ++ codes "abcdefgh"; bundle2_buf = some (codes "ij") }

pieces-written : write_all 8 (new true []) pieces ≡ some written
unfolding write_all new write write_chunks
pieces-written = refl

part_round_trip_example :
    (part : Bytes) × (n : ℕ) × (reader : Bytes) × (later : BundlePartReader) × (drop_writer written
      ≡ some part)
    × (read_u32 (part ++ codes "rest") ≡ some (n, reader))
    × (read (length (concat pieces)) (record { reader = reader; remaining = n })
        ≡ some (concat pieces, later))
    × (later.remaining ≡ 0)
    × (later.reader ≡ codes "rest")
part_round_trip_example =
    part_round_trip 8 pieces (codes "rest") written (omega arith) (omega arith) pieces-written
      (λ h. cc)

abbrev pub full : BundlePartWriter
full = record { writer = write_u32 8 ++ codes "abcdefgh"; bundle2_buf = some [] }

pub full_written : write_all 8 (new true []) (codes "abcdefgh" ∷ []) ≡ some full
unfolding write_all new write write_chunks
full_written = refl

written-Holds : Holds 8 [] (codes "abcdefghij") written
unfolding frames concat
written-Holds = record {
  chunks = codes "abcdefgh" ∷ [];
  buffer = codes "ij";
  is_chunks = ((omega arith, omega arith), tt);
  bundle2_buf = refl;
  writer = refl;
  held = refl;
  not_full = omega arith;
}

abbrev pub part_reader : BundlePartReader
part_reader = record {
  reader = codes "abc" ++ (write_u32 2 ++ (codes "de" ++ (write_u32 0 ++ codes "rest")));
  remaining = 3;
}

pub part_reader-Pending : Pending (codes "abcde") (codes "rest") part_reader
unfolding frames concat write_u32
part_reader-Pending =
    Pending.within (codes "abc") (codes "de" ∷ []) (omega arith) ((omega arith, omega arith), tt)
      refl refl refl

read-Pending_example :
    (later : BundlePartReader) × (read 4 part_reader ≡ some (codes "abcd", later))
    × Pending (codes "e") (codes "rest") later
read-Pending_example = read-Pending 4 (codes "abcde") (codes "rest") part_reader part_reader-Pending

chunk_written : write_bundle2_chunk (codes "abc") ≡ some (write_u32 3 ++ codes "abc")
unfolding write_bundle2_chunk
chunk_written = refl

abbrev patch : List PatchInfo
patch = record { start = 1; end_pos = 2; content = codes "xy" } ∷ []

abbrev patch_data : Bytes
patch_data = 0 ∷ 0 ∷ 0 ∷ 1 ∷ 0 ∷ 0 ∷ 0 ∷ 2 ∷ 0 ∷ 0 ∷ 0 ∷ 2 ∷ codes "xy"

patch_written : create_chunk_data patch ≡ some patch_data
unfolding create_chunk_data write_u32
patch_written = refl

iter_diff-create_chunk_data_example : iter_diff 2 patch_data ≡ ok patch
iter_diff-create_chunk_data_example =
    iter_diff-create_chunk_data patch patch_data 2 patch_written (omega arith)
