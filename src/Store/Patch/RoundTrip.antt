-- ===== src/Store/Patch/RoundTrip.antt =====
-- The text of a `GitChangesetPatch` (src/store.rs).
use git_cinnabar.Common.{
  ℕ, ◌≤◌, ◌<◌, ◌≡◌, refl, ap, List, [], ◌∷◌, ◌++◌, map, Bytes, IsBytes, Lacks, All, All-append,
  All-map, some, arith,
}
use git_cinnabar.Util.{split}
use git_cinnabar.Util.Splits.{join, split-join, splitn_exact_3-append}
use git_cinnabar.Util.Number.{format_nat, max_u64}
use git_cinnabar.Util.Number.RoundTrip.{format_nat-All, parse_u64-format_nat}
use git_cinnabar.Xdiff.{PatchInfo, apply}
use git_cinnabar.Store.Patch.{
  PercentCrate, parse_part, parse_parts, iter, apply_patch, part_text, from_patch_info,
}

-- Numbers of 64 bits, and bytes.
pub record IsPatch (p : PatchInfo) : Type 0 where
  pub start : p.start ≤ max_u64
  pub end_pos : p.end_pos ≤ max_u64
  pub content : IsBytes p.content

digits-Lacks : (b n : ℕ) → b < b'0' → Lacks b (format_nat n)
digits-Lacks b n h = All-map _ _ (λ c d e. absurd (omega arith)) (format_nat n) (format_nat-All n)

module _ (percent : PercentCrate) where
  part_text-Lacks : (p : PatchInfo) → IsPatch p → Lacks 0 (part_text percent p)
  part_text-Lacks p v = All-append _ (format_nat p.start) _ (digits-Lacks 0 p.start (omega arith)) (
    (omega arith),
    All-append _ (format_nat p.end_pos) _ (digits-Lacks 0 p.end_pos (omega arith))
        ((omega arith), percent.encode_Lacks p.content v.content),
  )

  parse_part-part_text :
      (p : PatchInfo) → IsPatch p → parse_part percent (part_text percent p) ≡ some p
  unfolding parse_part
  parse_part-part_text p v = rw (
    splitn_exact_3-append b',' (format_nat p.start) (format_nat p.end_pos)
        (percent.percent_encode p.content) (digits-Lacks b',' p.start (omega arith))
        (digits-Lacks b',' p.end_pos (omega arith)),
    parse_u64-format_nat p.start v.start,
    parse_u64-format_nat p.end_pos v.end_pos,
    percent.decode_encode p.content v.content,
  )

  parts-Lacks : (ps : List PatchInfo) → All IsPatch ps → All (Lacks 0) (map (part_text percent) ps)
  parts-Lacks [] h = tt
  parts-Lacks (p ∷ ps) (h, hs) = (part_text-Lacks p h, parts-Lacks ps hs)

  parse_parts-map :
      (ps : List PatchInfo)
      → All IsPatch ps
      → parse_parts percent (map (part_text percent) ps) ≡ some ps
  unfolding parse_parts
  parse_parts-map [] h = refl
  parse_parts-map (p ∷ ps) (h, hs) =
      rw (parse_parts, parse_part-part_text p h, parse_parts-map ps hs)

  from_patch_info-join :
      (p : PatchInfo) (ps : List PatchInfo)
      → from_patch_info percent (p ∷ ps) ≡ join 0 (part_text percent p ∷ map (part_text percent) ps)
  unfolding from_patch_info
  from_patch_info-join p [] = refl
  from_patch_info-join p (q ∷ ps) =
      ap (λ x. part_text percent p ++ 0 ∷ x) (from_patch_info-join q ps)

  -- The text of at least one patch, of bytes and numbers of 64 bits, is read as these patches, so
  -- that applying the text is applying the patches.
  pub apply_patch-from_patch_info :
      (p : PatchInfo) (ps : List PatchInfo) (input : Bytes)
      → All IsPatch (p ∷ ps)
      → (iter percent (from_patch_info percent (p ∷ ps)) ≡ some (p ∷ ps))
        × (apply_patch percent (from_patch_info percent (p ∷ ps)) input ≡ apply (p ∷ ps) input)
  unfolding iter apply_patch
  apply_patch-from_patch_info p ps input h =
      let read : parse_parts percent (split 0 (from_patch_info percent (p ∷ ps))) ≡ some (p ∷ ps) =
        rw
          (
            from_patch_info-join p ps,
            split-join 0 (part_text percent p) (map (part_text percent) ps)
                (parts-Lacks (p ∷ ps) h),
          )
          (parse_parts-map (p ∷ ps) h) in
      (read, rw (read) refl)
