-- ===== src/Store/Changeset.antt =====
-- src/store.rs: `RawHgChangeset`, the text of a changeset, which is made of a commit and metadata, and
-- `GeneratedGitChangesetMetadata`, the metadata that are made of a commit and that text. `none` is an
-- error or a panic.
pub mod Adjust
pub mod Regenerate
pub mod Read
pub mod Panic
pub mod WholeDiffer
use git_cinnabar.Common.{
  ℕ, zero, suc, ◌+◌, ◌≡◌, Bool, true, false, not, ◌&&◌, List, [], ◌∷◌, ◌++◌, length, Bytes, codes,
  Option, none, some, ◌>>=◌, ◌==◌, if◌then◌else◌, bytes_eq, cmp, Ordering, concat, map,
}
use git_cinnabar.Util.{split, split_once}
use git_cinnabar.Util.Splits.{join}
use git_cinnabar.Oid.{Oid, null_oid, is_null, display, from_str}
use git_cinnabar.Oid.Hex.{HexCrate}
use git_cinnabar.HgData.{HgAuthorship, hg_from_git, committer_from_git}
use git_cinnabar.HgData.Who.{WhoRegex}
use git_cinnabar.GitCommit.{Commit, split_body}
use git_cinnabar.GitCommit
use git_cinnabar.Store.Lines.{Bstr}
use git_cinnabar.Store.Metadata
use git_cinnabar.Store.Metadata.{GitChangesetMetadata, files, pop}
use git_cinnabar.Store.Metadata.Extra.{ChangesetExtra, get, set, unset, from, dump, dump_into}
use git_cinnabar.Store.Patch.{PercentCrate, apply_patch, shrink_all, from_patch_info}
use git_cinnabar.Xdiff.{Hunk, textdiff, PatchInfo}
use git_cinnabar.Xdiff.Apply.{Hunks}

pub record HgChangeset : Type 0 where
  pub manifest : Oid
  pub author : Bytes
  pub timestamp : Bytes
  pub utcoffset : Bytes
  pub extra : Option Bytes
  pub files : Option Bytes
  pub body : Bytes

-- The next item of a `splitn`, and what is left for the others.
abbrev pub next_part : ℕ → Bytes → Bytes × Option Bytes
next_part sep s = elim (split_once sep s) [
  | none ↦ (s, none)
  | some parts ↦ (parts.0, some parts.1)
]

unfoldable pub next_of : ℕ → Option Bytes → Option (Bytes × Option Bytes)
unfolding split_once
next_of sep none = none
next_of sep (some s) = some (next_part sep s)

-- `RawHgChangeset::parse`.
unfoldable pub parse : HexCrate → Bytes → Option HgChangeset
unfolding split_body next_of from_str
parse hex raw = split_body raw >>= λ parts. next_of 10 (some parts.0) >>= λ manifest.
    next_of 10 manifest.1 >>= λ author. next_of 10 author.1 >>= λ date.
    next_of b' ' (some date.0) >>= λ timestamp. next_of b' ' timestamp.1 >>= λ utcoffset.
    from_str hex manifest.0 >>= λ id. some (record {
      manifest = id;
      author = author.0;
      timestamp = timestamp.0;
      utcoffset = utcoffset.0;
      extra = utcoffset.1;
      files = date.1;
      body = parts.1;
    })

-- `files.sort()`.
unfoldable pub insert_name : Bytes → List Bytes → List Bytes
insert_name f [] = f ∷ []
insert_name f (g ∷ gs) =
    let later = insert_name f gs in elim (cmp f g) [ Ordering.gt ↦ g ∷ later | _ ↦ f ∷ (g ∷ gs) ]

unfoldable pub sort_names : List Bytes → List Bytes
unfolding insert_name
sort_names [] = []
sort_names (f ∷ fs) = insert_name f (sort_names fs)

abbrev pub file_lines : List Bytes → Bytes
file_lines [] = []
file_lines (f ∷ fs) = 10 ∷ (f ++ file_lines fs)

abbrev pub extra_text : Option ChangesetExtra → Bytes
extra_text none = []
extra_text (some e) = b' ' ∷ dump e

abbrev pub or_else : Option Bytes → Bytes → Bytes
or_else none d = d
or_else (some x) d = x

abbrev pub or_new : Option ChangesetExtra → ChangesetExtra
or_new none = []
or_new (some e) = e

abbrev pub is_some : Option Bytes → Bool
is_some none = false
is_some (some x) = true

abbrev pub read_extra : Option Bytes → Option (Option ChangesetExtra)
read_extra none = some none
read_extra (some text) = from text >>= λ e. some (some e)

-- The lines of two texts, and the hunks that xdiff finds between them.
pub record Differ : Type 0 where
  pub lines : Bytes → List Bytes
  pub hunks : List Bytes → List Bytes → List Hunk
  pub concat_lines : (t : Bytes) → concat (lines t) ≡ t
  pub hunks_stand : (a b : List Bytes) → Hunks 0 0 a b (hunks a b)

module _ (who : WhoRegex) where
  -- The extra with the committer, which is put there if it is not the author, and not there yet.
  unfoldable pub with_committer : Commit → Option ChangesetExtra → Option (Option ChangesetExtra)
  unfolding get set committer_from_git
  with_committer commit extra =
      if not (is_some (get (codes "committer") (or_new extra)))
        && not (bytes_eq commit.author commit.committer)
      then (committer_from_git who commit.committer >>= λ c.
          some (some (set (codes "committer") c (or_new extra))))
      else some extra

  -- The text that a commit and metadata give, before the patch.
  unfoldable pub build : Commit → GitChangesetMetadata → Option Bytes
  unfolding hg_from_git with_committer sort_names files from dump
  build commit metadata = hg_from_git who commit.author >>= λ hg.
      read_extra metadata.extra >>= λ extra0. with_committer commit extra0 >>= λ extra. some (
        display metadata.manifest_id
        ++ 10
          ∷ (or_else metadata.author hg.author
              ++ 10
                ∷ (hg.timestamp
                    ++ b' '
                      ∷ (hg.utcoffset
                          ++ (extra_text extra
                              ++ (file_lines (sort_names (files metadata))
                                  ++ 10 ∷ 10 ∷ commit.body))))))

abbrev pub last_byte : Bytes → Option ℕ
last_byte [] = none
last_byte (c ∷ []) = some c
last_byte (c ∷ (d ∷ cs)) = last_byte (d ∷ cs)

-- The loop over zero bytes at the end; `none` is a panic, a parent that is not known, or fuel that
-- was not enough. The text is hashed by a parameter.
unfoldable pub adjust : ℕ → (Bytes → Option Oid) → Oid → Bytes → Option Bytes
unfolding pop
adjust zero hash node changeset = none
adjust (suc fuel) hash node changeset = last_byte changeset >>= λ c.
    if c == 0
    then (hash changeset >>= λ h.
        let rest = adjust fuel hash node (pop changeset) in
        if bytes_eq h.raw node.raw then some changeset else rest)
    else some changeset

abbrev pub sort_two : Oid → Oid → Bytes
sort_two p q = elim (cmp p.raw q.raw) [ Ordering.gt ↦ q.raw ++ p.raw | _ ↦ p.raw ++ q.raw ]

-- The parents in Mercurial, two of them: `chain(repeat(Some(NULL))).take(2)`.
abbrev pub hg_parents : (Oid → Option Oid) → List Oid → Option (Oid × Oid)
hg_parents to_hg [] = some (null_oid, null_oid)
hg_parents to_hg (p ∷ []) = to_hg p >>= λ a. some (a, null_oid)
hg_parents to_hg (p ∷ (q ∷ rest)) = to_hg p >>= λ a. to_hg q >>= λ b. some (a, b)

unfoldable pub changeset_hash : (Bytes → Oid) → (Oid → Option Oid) → List Oid → Bytes → Option Oid
changeset_hash sha1 to_hg parents changeset =
    hg_parents to_hg parents >>= λ ps. some (sha1 (sort_two ps.0 ps.1 ++ changeset))

unfoldable pub patched : PercentCrate → Option Bytes → Bytes → Option Bytes
unfolding apply_patch
patched percent none changeset = some changeset
patched percent (some patch) changeset = apply_patch percent patch changeset

module _ (who : WhoRegex) (percent : PercentCrate) (sha1 : Bytes → Oid)
    (to_hg : Oid → Option Oid) where
  -- `RawHgChangeset::from_metadata_`.
  unfoldable pub from_metadata : Commit → GitChangesetMetadata → Bool → Option Bytes
  unfolding build patched adjust changeset_hash
  from_metadata commit metadata handle_changeset_conflict =
      build who commit metadata >>= λ changeset.
      patched percent metadata.patch changeset >>= λ text.
      if handle_changeset_conflict && not (is_null metadata.changeset_id)
      then adjust (suc (length text)) (changeset_hash sha1 to_hg commit.parents)
          metadata.changeset_id text
      else some text

  -- `RawHgChangeset::read`, of the texts of the commit and of its note, where the store has them.
  unfoldable pub read : HexCrate → Bstr → Option Bytes → Option Bytes → Option Bytes
  unfolding GitCommit.parse Metadata.parse from_metadata
  read hex b raw_commit note = (raw_commit >>= GitCommit.parse hex b) >>= λ commit.
      (note >>= Metadata.parse hex b) >>= λ metadata. from_metadata commit metadata true

abbrev pub names_of : Option Bytes → Option Bytes
names_of none = none
names_of (some text) = some (join 0 (split 10 text))

-- The patch that is made unless the two texts are the same.
unfoldable pub patch_between : PercentCrate → Differ → Bytes → Bytes → Option (Option Bytes)
unfolding textdiff shrink_all from_patch_info
patch_between percent differ new raw =
    if bytes_eq raw new
    then some none
    else (textdiff (differ.lines new) (differ.lines raw) raw
          (differ.hunks (differ.lines new) (differ.lines raw))
        >>= λ ps. shrink_all new ps >>= λ qs. some (some (from_patch_info percent qs)))

module _ (who : WhoRegex) where
  -- The extra without the committer that the commit gives; nothing, if that was all.
  unfoldable pub without_committer : Commit → Option Bytes → Option (Option Bytes)
  unfolding get unset from dump_into committer_from_git
  without_committer commit none = some none
  without_committer commit (some text) = from text >>= λ e.
      committer_from_git who commit.committer >>= λ c. some (elim (get (codes "committer") e) [
        | none ↦ some (dump_into e [])
        | some found ↦
            if bytes_eq found c
            then (elim (unset (codes "committer") e) [
              | [] ↦ none
              | x ∷ rest ↦ some (dump_into (x ∷ rest) [])
            ])
            else some (dump_into e [])
      ])

abbrev pub unpatched : Oid → HgChangeset → HgAuthorship → Option Bytes → GitChangesetMetadata
unpatched changeset_id changeset hg extra = record {
  changeset_id = changeset_id;
  manifest_id = changeset.manifest;
  author = if bytes_eq hg.author changeset.author then none else some changeset.author;
  extra = extra;
  files = names_of changeset.files;
  patch = none;
}

module _ (who : WhoRegex) (percent : PercentCrate) (differ : Differ) where
  -- The end of `generate`: the patch that the metadata `temp` lack.
  unfoldable pub with_patch : Commit → GitChangesetMetadata → Bytes → Option GitChangesetMetadata
  unfolding build patch_between
  with_patch commit temp raw = build who commit temp >>= λ new.
      patch_between percent differ new raw >>= λ patch. some (record temp { patch = patch })

module _ (who : WhoRegex) (percent : PercentCrate) (hex : HexCrate) (differ : Differ) where
  -- `GeneratedGitChangesetMetadata::generate`.
  unfoldable pub generate : Commit → Oid → Bytes → Option GitChangesetMetadata
  unfolding parse without_committer with_patch split
  generate commit changeset_id raw = parse hex raw >>= λ changeset.
      hg_from_git who commit.author >>= λ hg.
      without_committer who commit changeset.extra >>= λ extra.
      with_patch who percent differ commit (unpatched changeset_id changeset hg extra) raw
