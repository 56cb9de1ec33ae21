-- ===== src/Store/Patch/Shrink.antt =====
-- Leaving out of a patch what both texts have in common (src/store.rs).
use git_cinnabar.Common.{
  ℕ, ◌+◌, ◌-◌, ◌≤◌, ◌≡◌, refl, ap, sym, ◌∙◌, List, [], ◌∷◌, ◌++◌, Bytes, some, length, take, drop,
  take-append, drop-append, take-append-drop, append_assoc, arith,
}
use git_cinnabar.Xdiff.{PatchInfo, apply_from, apply}
use git_cinnabar.Store.Patch.{common_prefix, common_suffix, shrink, shrink_all}
use git_cinnabar.Store.Patch.InCommon.{take-common_prefix, drop-common_suffix}
use git_cinnabar.Store.Patch.Cuts.{cut, slice-cut, cut-append, length-cut, drop-plus}

-- Patches in order, of which what is in common does not overlap.
unfoldable pub IsFit : Bytes → ℕ → List PatchInfo → Type 0
IsFit new last [] = last ≤ length new
IsFit new last (p ∷ ps) =
    (last ≤ p.start)
    × (p.start ≤ p.end_pos)
    × (p.end_pos ≤ length new)
    × (common_prefix (take (p.end_pos - p.start) (drop p.start new)) p.content
          + common_suffix (take (p.end_pos - p.start) (drop p.start new)) p.content
        ≤ length p.content)
    × IsFit new p.end_pos ps

three_parts :
    (n k : ℕ) (xs : Bytes) → n ≤ k → take n xs ++ (take (k - n) (drop n xs) ++ drop k xs) ≡ xs
three_parts n k xs h =
    ap (λ t. take n xs ++ (take (k - n) (drop n xs) ++ t)) (drop-plus n (k - n) k xs (omega arith))
    ∙ ap (λ t. take n xs ++ t) (take-append-drop (k - n) (drop n xs))
    ∙ take-append-drop n xs

module _ (new : Bytes) (p : PatchInfo) (h : p.start ≤ p.end_pos) (k : p.end_pos ≤ length new) where
  orig : Bytes
  orig = cut new p.start p.end_pos

  cp : ℕ
  unfolding orig
  cp = common_prefix orig p.content

  cs : ℕ
  unfolding orig
  cs = common_suffix orig p.content

  sizes : (cp ≤ p.end_pos - p.start) × (cs ≤ p.end_pos - p.start)
  unfolding orig cp cs
  sizes =
      let (_, a, _) = take-common_prefix orig p.content in
      let (_, b, _) = drop-common_suffix orig p.content in
      let l = length-cut new p.start p.end_pos h k in (omega arith, omega arith)

  kept_before : cut new p.start (p.start + cp) ≡ take cp p.content
  unfolding orig cp cs
  kept_before =
      let (small, _) = sizes in
      let l : length (cut new p.start (p.start + cp)) ≡ cp =
        length-cut new p.start (p.start + cp) (omega arith) (omega arith) ∙ omega arith in
      sym (take-append cp _ (cut new (p.start + cp) p.end_pos) l)
      ∙ ap (take cp) (cut-append new p.start (p.start + cp) p.end_pos (omega arith) (omega arith))
      ∙ (take-common_prefix orig p.content).0

  kept_behind : cut new (p.end_pos - cs) p.end_pos ≡ drop (length p.content - cs) p.content
  unfolding orig cp cs
  kept_behind =
      let (_, small) = sizes in
      let size = length-cut new p.start p.end_pos h k in
      let l : length (cut new p.start (p.end_pos - cs)) ≡ length orig - cs =
        length-cut new p.start (p.end_pos - cs) (omega arith) (omega arith) ∙ omega arith in
      sym (drop-append (length orig - cs) _ (cut new (p.end_pos - cs) p.end_pos) l)
      ∙ ap (drop (length orig - cs))
          (cut-append new p.start (p.end_pos - cs) p.end_pos (omega arith) (omega arith))
      ∙ (drop-common_suffix orig p.content).0

  middle : Bytes
  middle = take (length p.content - cs - cp) (drop cp p.content)

  shrunk : PatchInfo
  shrunk = record { start = p.start + cp; end_pos = p.end_pos - cs; content = middle }

  module _ (fit : cp + cs ≤ length p.content) where
    shrink-shrunk : shrink new p ≡ some shrunk
    unfolding shrink orig cp cs middle shrunk
    shrink-shrunk = rw (
      shrink,
      slice-cut new p.start p.end_pos h k,
      slice-cut p.content cp (length p.content - cs) (omega arith) (omega arith),
    )

    parts :
        cut new p.start (p.start + cp) ++ (middle ++ cut new (p.end_pos - cs) p.end_pos) ≡ p.content
    unfolding middle
    parts =
        rw (kept_before, kept_behind)
          (three_parts cp (length p.content - cs) p.content (omega arith))

  fit_lem :
      common_prefix (take (p.end_pos - p.start) (drop p.start new)) p.content
          + common_suffix (take (p.end_pos - p.start) (drop p.start new)) p.content
        ≤ length p.content
      → cp + cs ≤ length p.content
  unfolding orig cp cs
  fit_lem f = f

  first_step :
      (last s : ℕ) (pre : Bytes) (qs : List PatchInfo)
      → last - s ≤ p.start + cp
      → p.start + cp ≤ length new
      → apply_from (last - s) pre (shrunk ∷ qs) new
        ≡ apply_from (p.end_pos - cs) ((pre ++ cut new (last - s) (p.start + cp)) ++ middle) qs new
  unfolding apply_from shrunk
  first_step last s pre qs le lt = rw (apply_from, slice-cut new (last - s) (p.start + cp) le lt)

plain_step :
    (new : Bytes) (p : PatchInfo) (last : ℕ) (pre : Bytes) (ps : List PatchInfo)
    → last ≤ p.start
    → p.start ≤ length new
    → apply_from last pre (p ∷ ps) new
      ≡ apply_from p.end_pos ((pre ++ cut new last p.start) ++ p.content) ps new
unfolding apply_from
plain_step new p last pre ps le lt = rw (apply_from, slice-cut new last p.start le lt)

-- Applying the shrunk patches, from before the end of the last one.
shrunk-apply_from :
    (new : Bytes) (ps : List PatchInfo) (last s : ℕ) (pre : Bytes)
    → s ≤ last
    → IsFit new last ps
    → (qs : List PatchInfo) × (shrink_all new ps ≡ some qs)
      × (apply_from (last - s) pre qs new ≡ apply_from last (pre ++ cut new (last - s) last) ps new)
unfolding IsFit shrink_all apply_from
shrunk-apply_from new [] last s pre h fit =
    let joined : pre ++ cut new (last - s) (length new)
        ≡ (pre ++ cut new (last - s) last) ++ cut new last (length new) =
      ap (λ t. pre ++ t) (sym (cut-append new (last - s) last (length new) (omega arith) fit))
      ∙ sym (append_assoc pre (cut new (last - s) last) (cut new last (length new))) in
    (
      [],
      refl,
      rw (
        slice-cut new (last - s) (length new) (omega arith) (omega arith),
        slice-cut new last (length new) fit (omega arith),
        joined,
      ),
    )
shrunk-apply_from new (p ∷ ps) last s pre h (a, b, c, f, fit) =
    let f' = fit_lem new p b c f in
    let e = shrink-shrunk new p b c f' in
    let (small_p, small_s) = sizes new p b c in
    let cp' = cp new p b c in
    let cs' = cs new p b c in
    let mid = middle new p b c in
    let pre' : Bytes = (pre ++ cut new (last - s) (p.start + cp')) ++ mid in
    let (qs, e', w) = shrunk-apply_from new ps p.end_pos cs' pre' (omega arith) fit in
    let start : Bytes = cut new (last - s) p.start in
    let begun : cut new (last - s) (p.start + cp') ≡ start ++ cut new p.start (p.start + cp') =
      sym (cut-append new (last - s) p.start (p.start + cp') (omega arith) (omega arith)) in
    let left : pre' ++ cut new (p.end_pos - cs') p.end_pos ≡ (pre ++ start) ++ p.content =
      append_assoc (pre ++ cut new (last - s) (p.start + cp')) mid
        (cut new (p.end_pos - cs') p.end_pos)
      ∙ ap (λ t. (pre ++ t) ++ (mid ++ cut new (p.end_pos - cs') p.end_pos)) begun
      ∙ ap (λ t. t ++ (mid ++ cut new (p.end_pos - cs') p.end_pos))
          (sym (append_assoc pre start (cut new p.start (p.start + cp'))))
      ∙ append_assoc (pre ++ start) (cut new p.start (p.start + cp'))
          (mid ++ cut new (p.end_pos - cs') p.end_pos)
      ∙ ap (λ t. (pre ++ start) ++ t) (parts new p b c f') in
    let right : (pre ++ cut new (last - s) last) ++ cut new last p.start ≡ pre ++ start =
      append_assoc pre (cut new (last - s) last) (cut new last p.start)
      ∙ ap (λ t. pre ++ t) (cut-append new (last - s) last p.start (omega arith) a) in
    (
      shrunk new p b c ∷ qs,
      rw (shrink_all, e, e'),
      first_step new p b c last s pre qs (omega arith) (omega arith)
          ∙ w
          ∙ ap (λ t. apply_from p.end_pos t ps new) (left ∙ ap (λ t. t ++ p.content) (sym right))
          ∙ sym (plain_step new p last (pre ++ cut new (last - s) last) ps a (omega arith)),
    )

-- In order and without overlap, the patches from which is left out what both texts have in common do
-- what the patches do.
pub apply-shrink_all :
    (new : Bytes) (ps : List PatchInfo)
    → IsFit new 0 ps
    → (qs : List PatchInfo) × (shrink_all new ps ≡ some qs) × (apply qs new ≡ apply ps new)
unfolding apply
apply-shrink_all new ps fit = shrunk-apply_from new ps 0 0 [] (omega arith) fit
