-- ===== src/Store/Patch/ShrunkApply.antt =====
-- Where `generate` does not panic, the patches that it makes do what they should (src/store.rs).
use git_cinnabar.Common.{
  ℕ, ◌+◌, ◌-◌, ◌≤◌, ◌≡◌, sym, ◌∙◌, List, [], ◌∷◌, Bytes, some, >>=-eq-some, some-eq, length, take,
  drop,
}
use git_cinnabar.Xdiff.{PatchInfo, slice, apply_from, apply}
use git_cinnabar.Store.Patch.{common_prefix, common_suffix, shrink, shrink_all}
use git_cinnabar.Store.Patch.InCommon.{drop-common_suffix}
use git_cinnabar.Store.Patch.Cuts.{cut, slice-cut, slice-some, sum_le}
use git_cinnabar.Store.Patch.Shrink.{IsFit, apply-shrink_all}

apply_from-some :
    (new : Bytes) (p : PatchInfo) (ps : List PatchInfo) (last : ℕ) (patched : Bytes) {t : Bytes}
    → apply_from last patched (p ∷ ps) new ≡ some t
    → (last ≤ p.start) × (later : Bytes) × (apply_from p.end_pos later ps new ≡ some t)
unfolding apply_from
apply_from-some new p ps last patched h =
    let (kept, e, h') = >>=-eq-some (slice new last p.start) _ h in
    ((slice-some new last p.start e).0, _, h')

shrink-some :
    (new : Bytes) (p : PatchInfo) {q : PatchInfo}
    → shrink new p ≡ some q
    → (p.start ≤ p.end_pos)
      × (p.end_pos ≤ length new)
      × (common_prefix (take (p.end_pos - p.start) (drop p.start new)) p.content
            + common_suffix (take (p.end_pos - p.start) (drop p.start new)) p.content
          ≤ length p.content)
unfolding shrink
shrink-some new p h =
    let (o, e, h') = >>=-eq-some (slice new p.start p.end_pos) _ h in
    let (le, lt) = slice-some new p.start p.end_pos e in
    let same : o ≡ cut new p.start p.end_pos =
      some-eq (sym e ∙ slice-cut new p.start p.end_pos le lt) in
    let (c, e', _) =
      >>=-eq-some
        (slice p.content (common_prefix o p.content) (length p.content - common_suffix o p.content))
        _ h' in
    let (in_order, _) = slice-some p.content _ _ e' in
    let (_, _, small) = drop-common_suffix o p.content in
    (le, lt, rw (same) at (sum_le _ _ _ in_order small))

-- Where the patches can be applied, and can be made shorter, they fit.
IsFit-of :
    (new : Bytes) (ps : List PatchInfo) (last : ℕ) (patched : Bytes) {t : Bytes}
    {qs : List PatchInfo}
    → apply_from last patched ps new ≡ some t
    → shrink_all new ps ≡ some qs
    → IsFit new last ps
unfolding IsFit shrink_all apply_from
IsFit-of new [] last patched h k =
    let (kept, e, _) = >>=-eq-some (slice new last (length new)) _ h in
    (slice-some new last (length new) e).0
IsFit-of new (p ∷ ps) last patched h k =
    let (a, later, h') = apply_from-some new p ps last patched h in
    let (q, e, k') = >>=-eq-some (shrink new p) _ k in
    let (qs, e', _) = >>=-eq-some (shrink_all new ps) _ k' in
    let (b, c, f) = shrink-some new p e in (a, b, c, f, IsFit-of new ps p.end_pos later h' e')

-- Patches that can be applied, and of which what both texts have in common can be left out, still do
-- the same without it.
pub shrink_all-apply :
    (new : Bytes) (ps qs : List PatchInfo) (t : Bytes)
    → apply ps new ≡ some t
    → shrink_all new ps ≡ some qs
    → apply qs new ≡ some t
unfolding apply
shrink_all-apply new ps qs t h k =
    let (rs, e, w) = apply-shrink_all new ps (IsFit-of new ps 0 [] h k) in
    let same : rs ≡ qs = some-eq (sym e ∙ k) in rw (sym same) (w ∙ h)
