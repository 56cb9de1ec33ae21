-- ===== src/Store/Patch/Overlap.antt =====
-- Patches of which too much is left out (src/store.rs, in `generate`).
use git_cinnabar.Common.{
  ℕ, ◌+◌, ◌-◌, ◌≤◌, ◌<◌, ◌≡◌, refl, sym, ◌∙◌, ◌⊎◌, inl, inr, ltb, ltb→lt, Bool-cases, List, [], ◌∷◌,
  Bytes, All, none, some, ◌>>=◌, length, take, drop, arith,
}
use git_cinnabar.Xdiff.{PatchInfo, slice}
use git_cinnabar.Xdiff.Apply.{InText}
use git_cinnabar.Store.Dag.Marks.{In}
use git_cinnabar.Store.Patch.{common_prefix, common_suffix, shrink, shrink_all}
use git_cinnabar.Store.Patch.InCommon.{
  take-common_prefix, drop-common_suffix, le-common_prefix, le-common_suffix,
}
use git_cinnabar.Store.Patch.Cuts.{cut, slice-cut, slice-none, lt_sum}

-- The two texts have the first `i` and the last `j` bytes in common, and these are more bytes than the
-- second text has.
pub record Overlap (old new : Bytes) (i j : ℕ) : Type 0 where
  pub prefix_fits : (i ≤ length old) × (i ≤ length new)
  pub suffix_fits : (j ≤ length old) × (j ≤ length new)
  pub prefix : take i old ≡ take i new
  pub suffix : drop (length old - j) old ≡ drop (length new - j) new
  pub overlap : length new < i + j

-- The text of a patch overlaps in this way with the text whose place it takes.
abbrev pub Overlaps : Bytes → PatchInfo → Type 0
Overlaps text p = (i : ℕ) × (j : ℕ) × Overlap (cut text p.start p.end_pos) p.content i j

abbrev pub Overlapping : Bytes → List PatchInfo → Type 0
Overlapping text ps = (p : PatchInfo) × In p ps × Overlaps text p

module _ (text : Bytes) (p : PatchInfo) (inside : InText text p) where
  shrink-overlap : Overlaps text p → shrink text p ≡ none
  unfolding shrink
  shrink-overlap (i, j, o) =
      let old : Bytes = cut text p.start p.end_pos in
      let (_, _, small) = drop-common_suffix old p.content in
      let cp = le-common_prefix i old p.content o.prefix_fits.0 o.prefix_fits.1 o.prefix in
      let cs = le-common_suffix j old p.content o.suffix_fits.0 o.suffix_fits.1 o.suffix in
      let over : length p.content < common_prefix old p.content + common_suffix old p.content =
        omega (arith, o.overlap) in
      let none_there : slice p.content (common_prefix old p.content)
            (length p.content - common_suffix old p.content)
          ≡ none =
        slice-none p.content _ _ (lt_sum _ _ _ over small) in
      rw (shrink, slice-cut text p.start p.end_pos inside.0 inside.1, none_there)

  shrink-fit :
      common_prefix (cut text p.start p.end_pos) p.content
        ≤ length p.content - common_suffix (cut text p.start p.end_pos) p.content
      → (q : PatchInfo) × (shrink text p ≡ some q)
  unfolding shrink
  shrink-fit fits =
      let kept : (t : Bytes) × (slice p.content
              (common_prefix (cut text p.start p.end_pos) p.content)
              (length p.content - common_suffix (cut text p.start p.end_pos) p.content)
            ≡ some t) =
        (_, slice-cut p.content _ _ fits (omega arith)) in
      let (t, e) = kept in
      rw (shrink, slice-cut text p.start p.end_pos inside.0 inside.1, e) (_, refl)

  -- The longest ones overlap, or the patch is made smaller.
  shrink-cases : Overlaps text p ⊎ ((q : PatchInfo) × (shrink text p ≡ some q))
  shrink-cases =
      let old : Bytes = cut text p.start p.end_pos in
      let cp : ℕ = common_prefix old p.content in
      let cs : ℕ = common_suffix old p.content in
      let (same_start, cp_old, cp_new) = take-common_prefix old p.content in
      let (same_end, cs_old, cs_new) = drop-common_suffix old p.content in
      elim (Bool-cases (ltb (length p.content) (cp + cs))) [
        | inl e ↦ inl (
          cp,
          cs,
          record {
            prefix_fits = (cp_old, cp_new);
            suffix_fits = (cs_old, cs_new);
            prefix = same_start;
            suffix = same_end;
            overlap = ltb→lt (length p.content) (cp + cs) e;
          },
        )
        | inr e ↦ inr (shrink-fit (ground arith))
      ]

shrink_all-cons :
    (text : Bytes) (p : PatchInfo) (ps : List PatchInfo)
    → shrink_all text (p ∷ ps) ≡ (shrink text p >>= λ q. shrink_all text ps >>= λ qs. some (q ∷ qs))
unfolding shrink_all
shrink_all-cons text p ps = refl

-- A list of patches can be made smaller unless one of them overlaps.
pub shrink_all-cases :
    (text : Bytes) (ps : List PatchInfo)
    → All (InText text) ps
    → (Overlapping text ps × (shrink_all text ps ≡ none))
      ⊎ ((¬ Overlapping text ps) × (qs : List PatchInfo) × (shrink_all text ps ≡ some qs))
shrink_all-cases text [] inside = inr (λ o. o.1, [], unfold shrink_all in refl)
shrink_all-cases text (p ∷ ps) (here, inside) = elim (shrink-cases text p here) [
  | inl o ↦
      inl ((p, inl refl, o), rw (shrink_all-cons text p ps, shrink-overlap text p here o) refl)
  | inr made ↦
      let (q, e) = made in
      elim (shrink_all-cases text ps inside) [
        | inl found ↦
            let ((r, m, o), later) = found in
            inl ((r, inr m, o), rw (shrink_all-cons text p ps, e, later) refl)
        | inr left ↦
            let (lacks, qs, later) = left in
            inr (
              λ found.
                  let (r, m, o) = found in
                  elim m [
                    | inl same ↦
                        let clash : some q ≡ none =
                          sym e ∙ shrink-overlap text p here (rw (← same) o) in
                        cc
                    | inr m ↦ lacks (r, m, o)
                  ],
              q ∷ qs,
              rw (shrink_all-cons text p ps, e, later) refl,
            )
      ]
]
