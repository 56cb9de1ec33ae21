-- ===== src/Tree/Diff/Sorted.antt =====
-- What `DiffByPath` returns for listings that are in order (src/tree_util.rs).
use git_cinnabar.Common.{
  ◌≡◌, ◌≢◌, sym, ◌∙◌, ◌⊎◌, ◌↔◌, inl, inr, Bool, List, [], ◌∷◌, Bytes, All, map, Ordering, cmp,
  cmp_refl, cmp-eq, cmp-gt, Bool-cases, arith,
}
use git_cinnabar.Store.Dag.Marks.{In}
use git_cinnabar.Tree.Diff.{
  differs, next_diff, Differences, filter-Differences, diff_by_path-Yields,
}
use git_cinnabar.Tree.Diff.Members.{
  IsDifference, IsDifference-left, IsDifference-right, IsDifference-both,
}
use git_cinnabar.Tree.Iter.{Yields, filter}
use git_cinnabar.Tree.Merge.{merged, merge_join_by_path}
use git_cinnabar.Tree.Merge.Sorted.{
  name_of, merged_name, merged-IsSorted, IsNamed, IsSorted, LessThan, LessThan-All,
}
use git_cinnabar.Tree.Order.{cmp_path-recursed_name}
use git_cinnabar.Tree.{WithPath, EitherOrBoth, MayRecurse, with_path}

LessThan-ne : (x y : Bytes) → LessThan x y → y ≢ x
LessThan-ne x y h e = let equal : cmp x y ≡ Ordering.eq = rw (e) (cmp_refl x) in cc

module _ {T : Type 0} ⦃t : MayRecurse T⦄ where
  above-apart :
      (x : Bytes) (ws : List (WithPath T))
      → All (LessThan x) (map name_of ws)
      → All (λ v. name_of v ≢ x) ws
  above-apart x [] a = tt
  above-apart x (v ∷ ws) (h, a) = (LessThan-ne x (name_of v) h, above-apart x ws a)

module _ {A : Type 0} (name : A → Bytes) (test : A → Bool) where
  filter-All :
      (x : Bytes) (items : List A)
      → All (LessThan x) (map name items)
      → All (LessThan x) (map name (filter test items))
  filter-All x [] a = tt
  filter-All x (i ∷ items) (h, a) = elim (Bool-cases (test i)) [
    | inl e ↦ rw (e) (h, filter-All x items a)
    | inr e ↦ rw (e) (filter-All x items a)
  ]

  filter-IsSorted :
      (items : List A) → IsSorted (map name items) → IsSorted (map name (filter test items))
  filter-IsSorted [] s = tt
  filter-IsSorted (i ∷ items) (a, s) = elim (Bool-cases (test i)) [
    | inl e ↦ rw (e) (filter-All (name i) items a, filter-IsSorted items s)
    | inr e ↦ rw (e) (filter-IsSorted items s)
  ]

head_iff : {P A B D : Type 0} → D ↔ (P ⊎ B) → A ↔ B → (P ⊎ A) ↔ D
head_iff h k = ground (arith, h, k)

head_iff_if : {Q P A B D : Type 0} → D ↔ ((Q × P) ⊎ B) → Q → A ↔ B → (P ⊎ A) ↔ D
head_iff_if h q k = ground (arith, h, k)

skip_iff : {Q P A B D : Type 0} → D ↔ ((Q × P) ⊎ B) → ¬ Q → A ↔ B → A ↔ D
skip_iff h q k = ground (arith, h, k)

module _ {L : Type 0} {R : Type 0} ⦃tl : MayRecurse L⦄ ⦃tr : MayRecurse R⦄ (eq : L → R → Bool) where
  Differences-In :
      {ls : List (WithPath L)} {rs : List (WithPath R)} {out : List (WithPath (EitherOrBoth L R))}
      → Differences eq ls rs out
      → All IsNamed ls
      → All IsNamed rs
      → IsSorted (map name_of ls)
      → IsSorted (map name_of rs)
      → (w : WithPath (EitherOrBoth L R)) → In w out ↔ IsDifference eq ls rs w
  unfolding with_path
  Differences-In Differences.nothing nl nr sl sr w = ground arith
  Differences-In (Differences.last_left {l} {ls} d) (n, nl) nr (s, sl) sr w =
      head_iff (IsDifference-left eq l ls [] w tt) (Differences-In d nl tt sl tt w)
  Differences-In (Differences.last_right {r} {rs} d) nl (m, nr) sl (t, sr) w =
      head_iff (IsDifference-right eq [] r rs w tt) (Differences-In d tt nr tt sr w)
  Differences-In (Differences.only_left {l} {r} {ls} {rs} lt d) (n, nl) (m, nr) (s, sl) (t, sr) w =
      let below = sym (cmp_path-recursed_name l r n m) ∙ lt in
      let apart =
        above-apart (name_of l) (r ∷ rs) (below, LessThan-All _ _ (map name_of rs) below t) in
      head_iff (IsDifference-left eq l ls (r ∷ rs) w apart)
        (Differences-In d nl (m, nr) sl (t, sr) w)
  Differences-In (Differences.only_right {l} {r} {ls} {rs} gt d) (n, nl) (m, nr) (s, sl) (t, sr) w =
      let below = cmp-gt (name_of l) (name_of r) (sym (cmp_path-recursed_name l r n m) ∙ gt) in
      let apart =
        above-apart (name_of r) (l ∷ ls) (below, LessThan-All _ _ (map name_of ls) below s) in
      head_iff (IsDifference-right eq (l ∷ ls) r rs w apart)
        (Differences-In d (n, nl) nr (s, sl) sr w)
  Differences-In (Differences.changed {l} {r} {ls} {rs} e q d) (n, nl) (m, nr) (s, sl) (t, sr) w =
      let same = cmp-eq (name_of l) (name_of r) (sym (cmp_path-recursed_name l r n m) ∙ e) in
      head_iff_if
        (IsDifference-both eq l ls r rs w same (above-apart (name_of r) ls (rw (← same) s))
          (above-apart (name_of l) rs (rw (same) t)))
        q (Differences-In d nl nr sl sr w)
  Differences-In (Differences.same {l} {r} {ls} {rs} e q d) (n, nl) (m, nr) (s, sl) (t, sr) w =
      let same = cmp-eq (name_of l) (name_of r) (sym (cmp_path-recursed_name l r n m) ∙ e) in
      skip_iff
        (IsDifference-both eq l ls r rs w same (above-apart (name_of r) ls (rw (← same) s))
          (above-apart (name_of l) rs (rw (same) t)))
        (λ f. cc) (Differences-In d nl nr sl sr w)

  -- Of two listings that are in strict order of their names, those of trees with a slash behind them,
  -- where no tree has a slash in its name, the iterator returns, in that order, and then ends, exactly
  -- these entries: those whose name the other listing does not have, and those that both have, with
  -- both values, where these are not equal.
  pub diff_by_path-IsDifference :
      (ls : List (WithPath L)) (rs : List (WithPath R))
      → All IsNamed ls
      → All IsNamed rs
      → IsSorted (map name_of ls)
      → IsSorted (map name_of rs)
      → (out : List (WithPath (EitherOrBoth L R))) × Yields
          (next_diff eq)
          (merge_join_by_path ls rs)
          out
        × IsSorted (map merged_name out)
        × ((w : WithPath (EitherOrBoth L R)) → In w out ↔ IsDifference eq ls rs w)
  diff_by_path-IsDifference ls rs nl nr sl sr = (
    filter (differs eq) (merged ls rs),
    diff_by_path-Yields eq ls rs,
    filter-IsSorted merged_name (differs eq) (merged ls rs) (merged-IsSorted ls rs nl nr sl sr),
    Differences-In (filter-Differences eq ls rs) nl nr sl sr,
  )
