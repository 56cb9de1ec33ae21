-- ===== src/Store/Changeset/Panic.antt =====
-- When the patch of a changeset makes `GeneratedGitChangesetMetadata::generate` panic (src/store.rs).
use git_cinnabar.Common.{
  ◌≡◌, ◌≢◌, refl, ap, ◌∙◌, ◌↔◌, inl, inr, Bool-cases, false, List, Bytes, All, Option, none, some,
  bytes_eq, bytes_eq_iff, ◌>>=◌,
}
use git_cinnabar.Oid.{Oid}
use git_cinnabar.Oid.Hex.{HexCrate}
use git_cinnabar.HgData.{HgAuthorship, hg_from_git}
use git_cinnabar.HgData.Who.{WhoRegex}
use git_cinnabar.GitCommit.{Commit}
use git_cinnabar.Xdiff.{PatchInfo, textdiff}
use git_cinnabar.Xdiff.Apply.{InText, textdiff-InText}
use git_cinnabar.Store.Patch.{PercentCrate}
use git_cinnabar.Store.Patch.Overlap.{Overlapping, shrink_all-cases}
use git_cinnabar.Store.Metadata.{GitChangesetMetadata}
use git_cinnabar.Store.Changeset.{
  Differ, HgChangeset, build, parse, without_committer, unpatched, with_patch, generate,
}
use git_cinnabar.Store.Changeset.Regenerate.{patch_between-differs}

some->>= :
    {A : Type 0} {B : Type 0} {o : Option A} {a : A} (f : A → Option B)
    → o ≡ some a
    → (o >>= f) ≡ f a
some->>= f e = ap (λ o. o >>= f) e

module _ (differ : Differ) where
  -- The patches of the line difference of two texts.
  abbrev pub line_patches : Bytes → Bytes → Option (List PatchInfo)
  line_patches new raw =
      textdiff (differ.lines new) (differ.lines raw) raw
        (differ.hunks (differ.lines new) (differ.lines raw))

  line_patches-InText :
      (new raw : Bytes)
      → (ps : List PatchInfo) × (line_patches new raw ≡ some ps) × All (InText new) ps
  line_patches-InText new raw =
      let a = differ.lines new in
      let b = differ.lines raw in
      let (ps, e, inside) = textdiff-InText a b (differ.hunks a b) (differ.hunks_stand a b) in
      (ps, rw (differ.concat_lines raw) at e, rw (differ.concat_lines new) at inside)

module _ (who : WhoRegex) (percent : PercentCrate) (differ : Differ) where
  with_patch-cases :
      (commit : Commit) (temp : GitChangesetMetadata) (new raw : Bytes)
      → build who commit temp ≡ some new
      → raw ≢ new
      → (ps : List PatchInfo) × (line_patches differ new raw ≡ some ps)
        × ((with_patch who percent differ commit temp raw ≡ none) ↔ Overlapping new ps)
  unfolding with_patch
  with_patch-cases commit temp new raw built differs =
      let (ps, made, inside) = line_patches-InText differ new raw in
      let e : bytes_eq raw new ≡ false = elim (Bool-cases (bytes_eq raw new)) [
        | inl e ↦ absurd (differs ((bytes_eq_iff raw new).0 e))
        | inr e ↦ e
      ] in
      (
        ps,
        made,
        elim (shrink_all-cases new ps inside) [
          | inl found ↦
              let (o, small) = found in
              rw (built, patch_between-differs percent differ new raw e, made, small)
                (λ _. o, λ _. refl)
          | inr left ↦
              let (lacks, qs, small) = left in
              rw (built, patch_between-differs percent differ new raw e, made, small)
                (λ h. cc, λ o. absurd (lacks o))
        ],
      )

  generate-with_patch :
      (hex : HexCrate) (commit : Commit) (changeset_id : Oid) (raw : Bytes)
      (changeset : HgChangeset) (hg : HgAuthorship) (extra : Option Bytes)
      → parse hex raw ≡ some changeset
      → hg_from_git who commit.author ≡ some hg
      → without_committer who commit changeset.extra ≡ some extra
      → generate who percent hex differ commit changeset_id raw
        ≡ with_patch who percent differ commit (unpatched changeset_id changeset hg extra) raw
  unfolding generate
  generate-with_patch hex commit changeset_id raw changeset hg extra read author left =
      some->>= _ read ∙ some->>= _ author ∙ some->>= _ left

  -- Where the text of the changeset, the author, the committer and the metadata give no error, and
  -- the text that the metadata give is another one than that of the changeset, generate fails, by a
  -- panic, just if there is a patch in the line difference of the two texts whose content and the text
  -- that it replaces have a start and an end in common that together are longer than the content.
  pub generate-panics :
      (hex : HexCrate) (commit : Commit) (changeset_id : Oid) (raw new : Bytes)
      (changeset : HgChangeset) (hg : HgAuthorship) (extra : Option Bytes)
      → parse hex raw ≡ some changeset
      → hg_from_git who commit.author ≡ some hg
      → without_committer who commit changeset.extra ≡ some extra
      → build who commit (unpatched changeset_id changeset hg extra) ≡ some new
      → raw ≢ new
      → (ps : List PatchInfo) × (line_patches differ new raw ≡ some ps)
        × ((generate who percent hex differ commit changeset_id raw ≡ none) ↔ Overlapping new ps)
  generate-panics hex commit changeset_id raw new changeset hg extra read author left built
        differs =
      rw (generate-with_patch hex commit changeset_id raw changeset hg extra read author left)
        (with_patch-cases commit (unpatched changeset_id changeset hg extra) new raw built differs)
