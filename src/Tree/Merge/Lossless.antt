-- ===== src/Tree/Merge/Lossless.antt =====
-- The merge loses no entry and makes none up.
use git_cinnabar.Common.{ℕ, ◌+◌, ◌≤◌, length, ◌≡◌, refl, List, [], ◌∷◌, ap, map, arith}
use git_cinnabar.Tree.Iter.{collect}
use git_cinnabar.Tree.Merge.{merged, next, merge_join_by_path, collect-merged}
use git_cinnabar.Tree.{WithPath, EitherOrBoth, MayRecurse, with_path, map_inner}

module _ {ℓ κ} {L : Type ℓ} {R : Type κ} where
  left_of : WithPath (EitherOrBoth L R) → EitherOrBoth L R → List (WithPath L) → List (WithPath L)
  left_of w (EitherOrBoth.left l) rest = with_path w.path l ∷ rest
  left_of w (EitherOrBoth.right r) rest = rest
  left_of w (EitherOrBoth.both l r) rest = with_path w.path l ∷ rest

  right_of : EitherOrBoth L R → List R → List R
  right_of (EitherOrBoth.left l) rest = rest
  right_of (EitherOrBoth.right r) rest = r ∷ rest
  right_of (EitherOrBoth.both l r) rest = r ∷ rest

  -- The entries that came from the left side.
  pub lefts : List (WithPath (EitherOrBoth L R)) → List (WithPath L)
  unfolding left_of
  lefts [] = []
  lefts (w ∷ ws) = left_of w w.inner (lefts ws)

  -- The values that came from the right side.
  pub rights : List (WithPath (EitherOrBoth L R)) → List R
  unfolding right_of
  rights [] = []
  rights (w ∷ ws) = right_of w.inner (rights ws)

module _ {ℓ κ} {L : Type ℓ} {R : Type κ} ⦃tl : MayRecurse L⦄ ⦃tr : MayRecurse R⦄ where
  pub lefts-merged : (ls : List (WithPath L)) (rs : List (WithPath R)) → lefts (merged ls rs) ≡ ls
  unfolding merged lefts with_path map_inner
  lefts-merged [] [] = refl
  lefts-merged [] (r ∷ rs) = lefts-merged [] rs
  lefts-merged (l ∷ ls) [] = ap (◌∷◌ l) (lefts-merged ls [])
  lefts-merged (l ∷ ls) (r ∷ rs) =
      ground (arith, lefts-merged ls (r ∷ rs), lefts-merged (l ∷ ls) rs, lefts-merged ls rs)

  pub rights-merged :
      (ls : List (WithPath L)) (rs : List (WithPath R))
      → rights (merged ls rs) ≡ map (λ (w : WithPath R). w.inner) rs
  unfolding merged rights with_path map_inner
  rights-merged [] [] = refl
  rights-merged [] (r ∷ rs) = ap (◌∷◌ r.inner) (rights-merged [] rs)
  rights-merged (l ∷ ls) [] = rights-merged ls []
  rights-merged (l ∷ ls) (r ∷ rs) =
      ground (arith, rights-merged ls (r ∷ rs), rights-merged (l ∷ ls) rs, rights-merged ls rs)

  -- The entries of the left side that the iterator returns are the left listing, in its order, in
  -- as many calls as there are entries.
  pub lefts-collect :
      (fuel : ℕ) (ls : List (WithPath L)) (rs : List (WithPath R))
      → length ls + length rs ≤ fuel
      → lefts (collect next fuel (merge_join_by_path ls rs)) ≡ ls
  lefts-collect fuel ls rs h = rw (collect-merged fuel ls rs h) (lefts-merged ls rs)

  -- The values of the right side that the iterator returns are those of the right listing, in its
  -- order, in as many calls as there are entries.
  pub rights-collect :
      (fuel : ℕ) (ls : List (WithPath L)) (rs : List (WithPath R))
      → length ls + length rs ≤ fuel
      → rights (collect next fuel (merge_join_by_path ls rs)) ≡ map (λ (w : WithPath R). w.inner) rs
  rights-collect fuel ls rs h = rw (collect-merged fuel ls rs h) (rights-merged ls rs)
