-- ===== src/Tests/Changesets.antt =====
-- Changesets, on a small one that is not quite what git can say.
use git_cinnabar.Common.{
  ℕ, ◌≡◌, ◌≢◌, ◌≤◌, ◌↔◌, List, ap, refl, [], ◌∷◌, ◌++◌, Bytes, IsBytes, Option, none, some, length,
  codes, sym, ◌∙◌, some-eq, bytes_eq, cmp, if◌then◌else◌, arith,
}
use git_cinnabar.Oid.{Oid, null_oid, display, from_str, hex_bytes}
use git_cinnabar.Oid.Hex.{hex_crate, decode}
use git_cinnabar.HgData.{
  HgAuthorship, hg_from_git, authorship_from_git, hg_from_authorship, hg_author,
  utcoffset_from_git_tz, committer_from_git, committer_from_authorship,
}
use git_cinnabar.HgData.Who.{who_regex, who_re, here, until_close}
use git_cinnabar.Util.Number.{max_u64, parse_i32, parse_u64, parse_digits, format_nat, format_int}
use git_cinnabar.Util.{rsplitn_exact_3, rsplit_once}
use git_cinnabar.Xdiff.{hunk_cb, line_offsets, slice, textdiff}
use git_cinnabar.Xdiff.Apply.{line_number}
use git_cinnabar.Store.Metadata.{GitChangesetMetadata, serialize}
use git_cinnabar.Store.Patch.Percent.{percent_crate, percent_encode}
use git_cinnabar.GitCommit.{Commit}
use git_cinnabar.GitCommit
use git_cinnabar.GitCommit.RoundTrip.{IsCommit, commit_text, parse-commit_text}
use git_cinnabar.Store.Lines.{bstr}
use git_cinnabar.Store.Metadata.RoundTrip.{IsMetadata}
use git_cinnabar.Store.Changeset.Read.{read-generate}
use git_cinnabar.Store.Changeset.{
  build, read, generate, changeset_hash, adjust, parse, HgChangeset, without_committer, unpatched,
}
use git_cinnabar.Store.Changeset.Panic.{line_patches, generate-panics}
use git_cinnabar.Store.Patch.Overlap.{Overlapping}
use git_cinnabar.Xdiff.{PatchInfo}
use git_cinnabar.Store.Changeset.WholeDiffer.{
  whole_differ, whole_hunk, lines_with_terminator, onto_first,
}
use git_cinnabar.Store.Changeset.Adjust.{IsAdjusted, zeros, adjust-zeros}
use git_cinnabar.Tests.Ids.{some_oid, some_IsOid}

abbrev commit : Commit
commit = record {
  tree = some_oid;
  author = codes "A B <a@b> 1500000000 +0200";
  committer = codes "A B <a@b> 1500000000 +0200";
  parents = [];
  body = codes "text";
}

-- The offset is one of seconds, which the commit has lost.
abbrev raw_changeset : Bytes
raw_changeset =
    display some_oid
    ++ 10
      ∷ (codes "A B <a@b>"
          ++ 10 ∷ (codes "1500000000 -7201" ++ 10 ∷ (codes "x" ++ 10 ∷ 10 ∷ codes "text")))

sha1 : Bytes → Oid
sha1 _ = some_oid

to_hg : Oid → Option Oid
to_hg _ = none

-- One byte of the changeset is in the patch.
abbrev made : GitChangesetMetadata
made = record {
  changeset_id = some_oid;
  manifest_id = some_oid;
  author = none;
  extra = none;
  files = some (codes "x");
  patch = some (codes "66,67,1");
}

made_by_generate :
    generate who_regex percent_crate hex_crate whole_differ commit some_oid raw_changeset
    ≡ some made
unfolding generate hex_crate who_regex percent_crate whole_differ authorship_from_git
    rsplitn_exact_3 rsplit_once who_re until_close here parse_i32 parse_u64 parse_digits bytes_eq
    hg_from_authorship hg_author format_nat format_int utcoffset_from_git_tz display from_str
    hex_bytes decode percent_encode whole_hunk lines_with_terminator onto_first line_number hunk_cb
    line_offsets slice textdiff cmp committer_from_git committer_from_authorship
made_by_generate = refl

abbrev unpatched_changeset : Bytes
unpatched_changeset =
    display some_oid
    ++ 10
      ∷ (codes "A B <a@b>"
          ++ 10 ∷ (codes "1500000000 -7200" ++ 10 ∷ (codes "x" ++ 10 ∷ 10 ∷ codes "text")))

built : build who_regex commit made ≡ some unpatched_changeset
unfolding build who_regex authorship_from_git rsplitn_exact_3 rsplit_once who_re until_close here
    parse_i32 parse_u64 parse_digits bytes_eq hg_from_authorship hg_author format_nat format_int
    utcoffset_from_git_tz
built = refl

small : length unpatched_changeset ≤ max_u64
unfolding display
small = omega arith

built_size : (new : Bytes) → build who_regex commit made ≡ some new → length new ≤ max_u64
built_size new h =
    let same : unpatched_changeset ≡ new = some-eq (sym built ∙ h) in rw (← same) small

hashed : changeset_hash sha1 to_hg commit.parents raw_changeset ≡ some some_oid
unfolding changeset_hash sha1
hashed = refl

raw_changeset-IsBytes : IsBytes raw_changeset
unfolding display
raw_changeset-IsBytes = ground arith

commit-IsCommit : IsCommit commit
commit-IsCommit = record {
  tree = some_IsOid;
  parents = tt;
  author = (ground arith, refl);
  committer = (ground arith, refl);
}

made-IsMetadata : IsMetadata made
made-IsMetadata = record {
  changeset = some_IsOid;
  manifest = some_IsOid;
  author = tt;
  extra = tt;
  files = (ground arith, refl);
  patch = (ground arith, refl);
}

read-generate_example :
    read who_regex percent_crate sha1 to_hg hex_crate bstr
      (some (commit_text commit))
      (some (serialize made))
    ≡ some raw_changeset
read-generate_example =
    read-generate who_regex percent_crate hex_crate whole_differ bstr sha1 to_hg commit some_oid
      raw_changeset made commit-IsCommit made-IsMetadata raw_changeset-IsBytes built_size hashed
      made_by_generate

-- A commit with two parents.
abbrev merge : Commit
merge = record commit { parents = some_oid ∷ some_oid ∷ [] }

merge-IsCommit : IsCommit merge
merge-IsCommit = record {
  tree = some_IsOid;
  parents = (some_IsOid, (some_IsOid, tt));
  author = (ground arith, refl);
  committer = (ground arith, refl);
}

parse-commit_text_example : GitCommit.parse hex_crate bstr (commit_text merge) ≡ some merge
parse-commit_text_example = parse-commit_text hex_crate bstr merge merge-IsCommit

-- A text with two zero bytes at the end, one of which belongs to it.
one_zero : Bytes → Oid
one_zero s = if bytes_eq s (codes "a" ++ zeros 1) then some_oid else null_oid

adjust-zeros_example :
    (k : ℕ) × (adjust 3 (λ x. some (one_zero x)) some_oid (codes "a" ++ zeros 2)
      ≡ some (codes "a" ++ zeros k))
    × IsAdjusted one_zero some_oid (codes "a") 2 k
adjust-zeros_example =
    adjust-zeros one_zero some_oid (codes "a") b'a' 2 3 refl (omega arith) (omega arith)

-- The text that the commit and the metadata give, with "t" for "text": its `t` is the first byte of
-- "text", and the last one as well.
abbrev short_changeset : Bytes
short_changeset =
    display some_oid
    ++ 10
      ∷ (codes "A B <a@b>"
          ++ 10 ∷ (codes "1500000000 -7200" ++ 10 ∷ (codes "x" ++ 10 ∷ 10 ∷ codes "t")))

abbrev short_parts : HgChangeset
short_parts = record {
  manifest = some_oid;
  author = codes "A B <a@b>";
  timestamp = codes "1500000000";
  utcoffset = codes "-7200";
  extra = none;
  files = some (codes "x");
  body = codes "t";
}

abbrev commit_authorship : HgAuthorship
commit_authorship = record {
  author = codes "A B <a@b>";
  timestamp = codes "1500000000";
  utcoffset = codes "-7200";
}

short_parsed : parse hex_crate short_changeset ≡ some short_parts
unfolding parse display hex_crate from_str hex_bytes decode
short_parsed = refl

author_converted : hg_from_git who_regex commit.author ≡ some commit_authorship
unfolding hg_from_git who_regex authorship_from_git rsplitn_exact_3 rsplit_once who_re until_close
    here parse_i32 parse_u64 parse_digits bytes_eq hg_from_authorship hg_author format_nat
    format_int utcoffset_from_git_tz
author_converted = refl

no_extra : without_committer who_regex commit none ≡ some none
unfolding without_committer
no_extra = refl

short_built :
    build who_regex commit (unpatched some_oid short_parts commit_authorship none)
    ≡ some unpatched_changeset
unfolding build who_regex authorship_from_git rsplitn_exact_3 rsplit_once who_re until_close here
    parse_i32 parse_u64 parse_digits bytes_eq hg_from_authorship hg_author format_nat format_int
    utcoffset_from_git_tz
short_built = refl

shorter : short_changeset ≢ unpatched_changeset
unfolding display
shorter h =
    let sizes : length short_changeset ≡ length unpatched_changeset = ap length h in omega arith

generate-panics_example :
    (ps : List PatchInfo) × (line_patches whole_differ unpatched_changeset short_changeset
      ≡ some ps)
    × ((generate who_regex percent_crate hex_crate whole_differ commit some_oid short_changeset
          ≡ none)
        ↔ Overlapping unpatched_changeset ps)
generate-panics_example =
    generate-panics who_regex percent_crate whole_differ hex_crate commit some_oid short_changeset
      unpatched_changeset short_parts commit_authorship none short_parsed author_converted no_extra
      short_built shorter

-- With this difference it panics.
panics :
    generate who_regex percent_crate hex_crate whole_differ commit some_oid short_changeset ≡ none
unfolding generate hex_crate who_regex percent_crate whole_differ authorship_from_git
    rsplitn_exact_3 rsplit_once who_re until_close here parse_i32 parse_u64 parse_digits bytes_eq
    hg_from_authorship hg_author format_nat format_int utcoffset_from_git_tz display from_str
    hex_bytes decode percent_encode whole_hunk lines_with_terminator onto_first line_number hunk_cb
    line_offsets slice textdiff cmp committer_from_git committer_from_authorship
panics = refl
