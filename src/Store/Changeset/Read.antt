-- ===== src/Store/Changeset/Read.antt =====
-- A changeset that is kept as a commit and a note is read back (src/store.rs).
use git_cinnabar.Common.{◌≡◌, true, Bytes, IsBytes, ◌≤◌, length, Option, some}
use git_cinnabar.Oid.{Oid}
use git_cinnabar.Oid.Hex.{HexCrate}
use git_cinnabar.HgData.Who.{WhoRegex}
use git_cinnabar.Util.Number.{max_u64}
use git_cinnabar.GitCommit.{Commit}
use git_cinnabar.GitCommit.RoundTrip.{IsCommit, commit_text, parse-commit_text}
use git_cinnabar.Store.Lines.{Bstr}
use git_cinnabar.Store.Metadata.{GitChangesetMetadata, serialize}
use git_cinnabar.Store.Metadata.RoundTrip.{IsMetadata, parse-serialize}
use git_cinnabar.Store.Patch.{PercentCrate}
use git_cinnabar.Store.Changeset.{Differ, build, generate, changeset_hash, read}
use git_cinnabar.Store.Changeset.Regenerate.{from_metadata-generate}

module _ (who : WhoRegex) (percent : PercentCrate) (hex : HexCrate) (differ : Differ)
    (b : Bstr) where
  -- The text of a changeset is kept: if metadata are made of a commit and that text, then reading the
  -- texts of the commit and of these metadata gives that text again. The text is one of bytes whose
  -- hash, with the parents of the commit, is the id of the changeset; the commit and the metadata have
  -- ids of twenty bytes and no value with a newline in it or a carriage return at its end; the text
  -- that they give before the patch has a length of 64 bits.
  pub read-generate :
      (sha1 : Bytes → Oid) (to_hg : Oid → Option Oid) (commit : Commit) (changeset_id : Oid)
      (raw : Bytes) (m : GitChangesetMetadata)
      → IsCommit commit
      → IsMetadata m
      → IsBytes raw
      → ((new : Bytes) → build who commit m ≡ some new → length new ≤ max_u64)
      → changeset_hash sha1 to_hg commit.parents raw ≡ some changeset_id
      → generate who percent hex differ commit changeset_id raw ≡ some m
      → read who percent sha1 to_hg hex b (some (commit_text commit)) (some (serialize m))
        ≡ some raw
  unfolding read
  read-generate sha1 to_hg commit changeset_id raw m c v bytes size hashed h =
      rw (parse-commit_text hex b commit c, parse-serialize hex b m v)
        (from_metadata-generate who percent hex differ sha1 to_hg commit changeset_id raw m true
          bytes size hashed h)
