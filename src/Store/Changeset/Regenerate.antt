-- ===== src/Store/Changeset/Regenerate.antt =====
-- The metadata that `generate` makes, read back (src/store.rs).
use git_cinnabar.Common.{
  ℕ, suc, ◌≤◌, ◌≡◌, ◌≢◌, refl, ap, sym, ◌∙◌, inl, inr, Bool, true, false, List, [], ◌∷◌, ◌++◌,
  Bytes, IsBytes, All, All-left, All-right, Option, none, some, ◌>>=◌, >>=-eq-some, some-eq,
  bytes_eq, bytes_eq_refl, bytes_eq_iff, length, take-length, Bool-cases, arith,
}
use git_cinnabar.Oid.{Oid, is_null}
use git_cinnabar.Oid.Hex.{HexCrate}
use git_cinnabar.HgData.{hg_from_git}
use git_cinnabar.HgData.Who.{WhoRegex}
use git_cinnabar.Util.Number.{max_u64}
use git_cinnabar.Store.Metadata.{GitChangesetMetadata}
use git_cinnabar.Store.Patch.{PercentCrate, shrink_all, from_patch_info}
use git_cinnabar.Store.Patch.RoundTrip.{IsPatch, apply_patch-from_patch_info}
use git_cinnabar.Store.Patch.Cuts.{slice-some}
use git_cinnabar.Store.Patch.ShrunkApply.{shrink_all-apply}
use git_cinnabar.Xdiff.{PatchInfo, slice, apply, apply_from, textdiff}
use git_cinnabar.Xdiff.Apply.{apply-textdiff}
use git_cinnabar.GitCommit.{Commit, split_body}
use git_cinnabar.Store.Changeset.{
  Differ, build, patched, from_metadata, patch_between, with_patch, unpatched, generate, parse,
  last_byte, HgChangeset, adjust, changeset_hash, without_committer,
}
use git_cinnabar.Store.Changeset.Adjust.{adjust-same}

-- What is patched together has every part of the patch in it.
apply_from-IsPatch :
    (new : Bytes) (ps : List PatchInfo) (last : ℕ) (before : Bytes) {t : Bytes}
    → length new ≤ max_u64
    → IsBytes t
    → apply_from last before ps new ≡ some t
    → IsBytes before × (last ≤ max_u64) × All IsPatch ps
unfolding apply_from
apply_from-IsPatch new [] last before {t} size bytes h =
    let (kept, e, h') = >>=-eq-some (slice new last (length new)) _ h in
    let (le, lt) = slice-some new last (length new) e in
    (All-left _ before kept (rw (some-eq h') bytes), omega (arith, size), tt)
apply_from-IsPatch new (p ∷ ps) last before {t} size bytes h =
    let (kept, e, h') = >>=-eq-some (slice new last p.start) _ h in
    let (le, lt) = slice-some new last p.start e in
    let (all, end_at, later) =
      apply_from-IsPatch new ps p.end_pos ((before ++ kept) ++ p.content) size bytes h' in
    let front = All-left _ (before ++ kept) p.content all in
    (
      All-left _ before kept front,
      omega (arith, size),
      (
        record {
          start = omega (arith, size);
          end_pos = end_at;
          content = All-right _ (before ++ kept) p.content all;
        },
        later,
      ),
    )

whole-slice : (new : Bytes) {t : Bytes} → slice new 0 (length new) ≡ some t → t ≡ new
unfolding slice
whole-slice new h = ground (arith, take-length new)

apply-nil : (new t : Bytes) → apply [] new ≡ some t → new ≡ t
unfolding apply apply_from
apply-nil new t h =
    let (kept, e, h') = >>=-eq-some (slice new 0 (length new)) _ h in
    sym (whole-slice new e) ∙ some-eq h'

module _ (percent : PercentCrate) (differ : Differ) where
  shrunk-patched :
      (new raw : Bytes) (qs : List PatchInfo)
      → length new ≤ max_u64
      → IsBytes raw
      → new ≢ raw
      → apply qs new ≡ some raw
      → patched percent (some (from_patch_info percent qs)) new ≡ some raw
  unfolding patched apply
  shrunk-patched new raw [] size bytes differs h = absurd (differs (apply-nil new raw h))
  shrunk-patched new raw (q ∷ qs) size bytes differs h =
      let (_, _, all) = apply_from-IsPatch new (q ∷ qs) 0 [] size bytes h in
      (apply_patch-from_patch_info percent q qs new all).1 ∙ h

  patch_between-same :
      (new raw : Bytes) → bytes_eq raw new ≡ true → patch_between percent differ new raw ≡ some none
  unfolding patch_between
  patch_between-same new raw e = rw (e)

  pub patch_between-differs :
      (new raw : Bytes)
      → bytes_eq raw new ≡ false
      → patch_between percent differ new raw ≡ (
          textdiff
            (differ.lines new)
            (differ.lines raw)
            raw
            (differ.hunks (differ.lines new) (differ.lines raw))
          >>= λ ps. shrink_all new ps >>= λ qs. some (some (from_patch_info percent qs)))
  unfolding patch_between
  patch_between-differs new raw e = rw (e)

  textdiff-apply :
      (new raw : Bytes) (ps : List PatchInfo)
      → textdiff
          (differ.lines new)
          (differ.lines raw)
          raw
          (differ.hunks (differ.lines new) (differ.lines raw))
        ≡ some ps
      → apply ps new ≡ some raw
  textdiff-apply new raw ps h =
      let a = differ.lines new in
      let b = differ.lines raw in
      let (patch, e, w) = apply-textdiff a b (differ.hunks a b) (differ.hunks_stand a b) in
      let same : patch ≡ ps = some-eq (sym e ∙ rw (differ.concat_lines raw) h) in
      ap (apply ps) (sym (differ.concat_lines new))
      ∙ rw (← same) w
      ∙ ap some (differ.concat_lines raw)

  patched-patch_between :
      (new raw : Bytes) (patch : Option Bytes)
      → length new ≤ max_u64
      → IsBytes raw
      → patch_between percent differ new raw ≡ some patch
      → patched percent patch new ≡ some raw
  unfolding patched
  patched-patch_between new raw patch size bytes h = elim (Bool-cases (bytes_eq raw new)) [
    | inl e ↦
        rw (← some-eq (sym (patch_between-same new raw e) ∙ h))
          (ap some (sym ((bytes_eq_iff raw new).0 e)))
    | inr e ↦
        let (ps, made, h1) =
          >>=-eq-some
            (textdiff (differ.lines new) (differ.lines raw) raw
              (differ.hunks (differ.lines new) (differ.lines raw)))
            _ (sym (patch_between-differs new raw e) ∙ h) in
        let (qs, small, h2) = >>=-eq-some (shrink_all new ps) _ h1 in
        let differs : new ≢ raw = λ same. cc (sym e ∙ (bytes_eq_iff raw new).1 (sym same)) in
        let made_of : some (from_patch_info percent qs) ≡ patch = some-eq h2 in
        rw (← made_of) (
          shrunk-patched new raw qs size bytes differs
            (shrink_all-apply new ps qs raw (textdiff-apply new raw ps made) small))
  ]

-- What a patch turns the text of a commit and metadata into.
build-patch :
    (who : WhoRegex) (commit : Commit) (m : GitChangesetMetadata) (patch : Option Bytes)
    → build who commit (record m { patch = patch }) ≡ build who commit m
unfolding build
build-patch who commit m patch = refl

cons-last_byte : (x : ℕ) (s : Bytes) → (c : ℕ) × (last_byte (x ∷ s) ≡ some c)
cons-last_byte x [] = (x, refl)
cons-last_byte x (y ∷ s) = cons-last_byte y s

parse-last_byte :
    (hex : HexCrate) (raw : Bytes) (changeset : HgChangeset)
    → parse hex raw ≡ some changeset
    → (c : ℕ) × (last_byte raw ≡ some c)
unfolding parse split_body
parse-last_byte hex [] changeset h = cc
parse-last_byte hex (x ∷ raw) changeset h = cons-last_byte x raw

module _ (who : WhoRegex) (percent : PercentCrate) where
  -- The loop over zero bytes stops at once at the text that has the hash.
  from_metadata-patched :
      (sha1 : Bytes → Oid) (to_hg : Oid → Option Oid) (commit : Commit) (m : GitChangesetMetadata)
      (new raw : Bytes) (c : ℕ) (conflict : Bool)
      → build who commit m ≡ some new
      → patched percent m.patch new ≡ some raw
      → last_byte raw ≡ some c
      → changeset_hash sha1 to_hg commit.parents raw ≡ some m.changeset_id
      → from_metadata who percent sha1 to_hg commit m conflict ≡ some raw
  unfolding from_metadata
  from_metadata-patched sha1 to_hg commit m new raw c false built done last hashed =
      rw (built, done)
  from_metadata-patched sha1 to_hg commit m new raw c true built done last hashed =
      let kept : adjust (suc (length raw)) (changeset_hash sha1 to_hg commit.parents) m.changeset_id
            raw
          ≡ some raw =
        adjust-same (changeset_hash sha1 to_hg commit.parents) m.changeset_id m.changeset_id
          (length raw) c raw last hashed (bytes_eq_refl m.changeset_id.raw) in
      elim (Bool-cases (is_null m.changeset_id)) [
        | inl e ↦ rw (built, done, e)
        | inr e ↦ rw (built, done, e, kept)
      ]

  with_patch-patched :
      (differ : Differ) (commit : Commit) (temp m : GitChangesetMetadata) (raw : Bytes)
      → IsBytes raw
      → ((new : Bytes) → build who commit m ≡ some new → length new ≤ max_u64)
      → with_patch who percent differ commit temp raw ≡ some m
      → (m.changeset_id ≡ temp.changeset_id)
        × (new : Bytes) × (build who commit m ≡ some new)
        × (patched percent m.patch new ≡ some raw)
  unfolding with_patch
  with_patch-patched differ commit temp m raw bytes size h =
      let (new, built, h1) = >>=-eq-some (build who commit temp) _ h in
      let (patch, made, h2) = >>=-eq-some (patch_between percent differ new raw) _ h1 in
      let same : record temp { patch = patch } ≡ m = some-eq h2 in
      let built' : build who commit m ≡ some new =
        ap (build who commit) (sym same) ∙ build-patch who commit temp patch ∙ built in
      let done = patched-patch_between percent differ new raw patch (size new built') bytes made in
      (
        ap (λ x. x.changeset_id) (sym same),
        new,
        built',
        ap (λ x. patched percent x.patch new) (sym same) ∙ done,
      )

  -- If metadata are made of a commit and the text of a changeset, then the same commit and these
  -- metadata give that text again, whatever the text says that the commit and the metadata do not:
  -- the patch in the metadata makes up for the rest, and the loop over zero bytes at the end takes
  -- none away. The text is one of bytes whose hash, with the parents of the commit, is the id of the
  -- changeset; the text that the commit and the metadata give before the patch has a length of 64
  -- bits.
  pub from_metadata-generate :
      (hex : HexCrate) (differ : Differ) (sha1 : Bytes → Oid) (to_hg : Oid → Option Oid)
      (commit : Commit) (changeset_id : Oid) (raw : Bytes) (m : GitChangesetMetadata)
      (conflict : Bool)
      → IsBytes raw
      → ((new : Bytes) → build who commit m ≡ some new → length new ≤ max_u64)
      → changeset_hash sha1 to_hg commit.parents raw ≡ some changeset_id
      → generate who percent hex differ commit changeset_id raw ≡ some m
      → from_metadata who percent sha1 to_hg commit m conflict ≡ some raw
  unfolding generate
  from_metadata-generate hex differ sha1 to_hg commit changeset_id raw m conflict bytes size hashed
        h =
      let (changeset, read, h1) = >>=-eq-some (parse hex raw) _ h in
      let (hg, author, h2) = >>=-eq-some (hg_from_git who commit.author) _ h1 in
      let (extra, left, h3) = >>=-eq-some (without_committer who commit changeset.extra) _ h2 in
      let (id, new, built, done) =
        with_patch-patched differ commit (unpatched changeset_id changeset hg extra) m raw bytes
          size h3 in
      let (c, last) = parse-last_byte hex raw changeset read in
      from_metadata-patched sha1 to_hg commit m new raw c conflict built done last
        (hashed ∙ ap some (sym id))
