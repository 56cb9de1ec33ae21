-- ===== src/Tests/Streams.antt =====
-- Parts of a bundle one behind the other, on small inputs.
use git_cinnabar.Common.{
  ℕ, ◌≡◌, refl, [], ◌∷◌, ◌++◌, Bytes, codes, concat, length, none, some, arith,
}
use git_cinnabar.Bundle.Part.{BundlePartReader, drop_writer, read}
use git_cinnabar.Bundle.Spec.{BundleVersion}
use git_cinnabar.Bundle.Stream.Parts.{next_part-new_part, next_part_lost}
use git_cinnabar.Bundle.Stream.Skip.{bundle_reader, next_part-Pending}
use git_cinnabar.Bundle.Stream.{BundleWriter, next_part, new_part}
use git_cinnabar.Bundle.{write_u32, read_u32, write_bundle2_chunk}
use git_cinnabar.Tests.Bundles.{full, full_written, part_reader, part_reader-Pending}
use git_cinnabar.Tests.Headers.{ascii, foobar, foobar_text, foobar-IsInfo, foobar_written}

next_part-Pending_example :
    next_part ascii (bundle_reader part_reader)
    ≡ next_part ascii
        (record { reader = codes "rest"; version = BundleVersion.v2; remaining = some 0 })
next_part-Pending_example =
    next_part-Pending ascii (codes "abcde") (codes "rest") part_reader part_reader-Pending

abbrev empty_bundle : BundleWriter
empty_bundle = record { writer = []; version = BundleVersion.v2; last_part_id = none }

abbrev begun_bundle : BundleWriter
begun_bundle = record {
  writer = [] ++ (write_u32 (length foobar_text) ++ foobar_text);
  version = BundleVersion.v2;
  last_part_id = some 0x12345678;
}

foobar_begun : new_part ascii empty_bundle foobar ≡ some begun_bundle
unfolding new_part write_bundle2_chunk
foobar_begun = rw (foobar_written)

next_part-new_part_example :
    (begun : Bytes) × (begun_bundle.writer ≡ empty_bundle.writer ++ begun)
    × ((behind reader : Bytes) (n : ℕ)
        → read_u32 behind ≡ some (n, reader)
        → next_part ascii
            (record { reader = begun ++ behind; version = BundleVersion.v2; remaining = some 0 })
          ≡ some (
            some foobar,
            record { reader = reader; version = BundleVersion.v2; remaining = some n },
          ))
next_part-new_part_example =
    next_part-new_part ascii empty_bundle begun_bundle foobar refl foobar-IsInfo foobar_begun

next_part_lost_example :
    (part : Bytes) × (n : ℕ) × (reader : Bytes) × (later : BundlePartReader) × (drop_writer full
      ≡ some part)
    × (read_u32 (part ++ foobar_text) ≡ some (n, reader))
    × (read (length (concat (codes "abcdefgh" ∷ []))) (record { reader = reader; remaining = n })
        ≡ some (concat (codes "abcdefgh" ∷ []), later))
    × (next_part ascii (bundle_reader later)
        ≡ some
            (none, record { reader = foobar_text; version = BundleVersion.v2; remaining = none }))
next_part_lost_example =
    next_part_lost ascii 8 (codes "abcdefgh" ∷ []) foobar_text full (omega arith) (omega arith)
      full_written refl
