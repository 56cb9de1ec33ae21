-- ===== src/Tree/Merge.antt =====
-- src/tree_util.rs: `MergeJoinByPath`, the iterator over two listings in the order of their paths.
pub mod Lossless
pub mod Sorted
use git_cinnabar.Common.{
  ℕ, zero, suc, ◌+◌, ◌≤◌, ◌≡◌, refl, List, [], ◌∷◌, Option, none, some, Ordering, length, arith, ap,
  map,
}
use git_cinnabar.Tree.Iter.{collect}
use git_cinnabar.Tree.{WithPath, EitherOrBoth, MayRecurse, with_path, map_inner, cmp_path}

-- `Peekable` over a list is the list.
pub record MergeJoinByPath {ℓ κ} (L : Type ℓ) (R : Type κ) : Type (ℓ ⊔ κ) where
  pub left : List (WithPath L)
  pub right : List (WithPath R)

module _ {ℓ κ} {L : Type ℓ} {R : Type κ} ⦃tl : MayRecurse L⦄ ⦃tr : MayRecurse R⦄ where
  unfoldable pub merge_join_by_path : List (WithPath L) → List (WithPath R) → MergeJoinByPath L R
  merge_join_by_path left right = record { left = left; right = right }

  peek_order : List (WithPath L) → List (WithPath R) → Option Ordering
  peek_order (l ∷ ls) (r ∷ rs) = some (cmp_path l r)
  peek_order (l ∷ ls) [] = some Ordering.lt
  peek_order [] (r ∷ rs) = some Ordering.gt
  peek_order [] [] = none

  next_left :
      List (WithPath L)
      → MergeJoinByPath L R
      → Option (WithPath (EitherOrBoth L R) × MergeJoinByPath L R)
  next_left [] s = none
  next_left (l ∷ ls) s = some (map_inner EitherOrBoth.left l, record s { left = ls })

  next_right :
      List (WithPath R)
      → MergeJoinByPath L R
      → Option (WithPath (EitherOrBoth L R) × MergeJoinByPath L R)
  next_right [] s = none
  next_right (r ∷ rs) s = some (map_inner EitherOrBoth.right r, record s { right = rs })

  next_both :
      List (WithPath L)
      → List (WithPath R)
      → Option (WithPath (EitherOrBoth L R) × MergeJoinByPath L R)
  next_both (l ∷ ls) (r ∷ rs) =
      some (map_inner (λ x. EitherOrBoth.both x r.inner) l, record { left = ls; right = rs })
  next_both _ _ = none

  unfoldable pub next :
      MergeJoinByPath L R → Option (WithPath (EitherOrBoth L R) × MergeJoinByPath L R)
  unfolding peek_order next_left next_right next_both
  next s = elim (peek_order s.left s.right) [
    | none ↦ none
    | some Ordering.lt ↦ next_left s.left s
    | some Ordering.gt ↦ next_right s.right s
    | some Ordering.eq ↦ next_both s.left s.right
  ]

  -- What the iterator returns, with no iterator: a merge of two lists.
  unfoldable pub merged : List (WithPath L) → List (WithPath R) → List (WithPath (EitherOrBoth L R))
  merged [] [] = []
  merged [] (r ∷ rs) = map_inner EitherOrBoth.right r ∷ merged [] rs
  merged (l ∷ ls) [] = map_inner EitherOrBoth.left l ∷ merged ls []
  merged (l ∷ ls) (r ∷ rs) = elim (cmp_path l r) [
    | Ordering.lt ↦ map_inner EitherOrBoth.left l ∷ merged ls (r ∷ rs)
    | Ordering.gt ↦ map_inner EitherOrBoth.right r ∷ merged (l ∷ ls) rs
    | Ordering.eq ↦ map_inner (λ x. EitherOrBoth.both x r.inner) l ∷ merged ls rs
  ]

  -- The iterator returns the merge of the two listings, in as many calls as there are entries.
  pub collect-merged :
      (fuel : ℕ) (ls : List (WithPath L)) (rs : List (WithPath R))
      → length ls + length rs ≤ fuel
      → collect next fuel (merge_join_by_path ls rs) ≡ merged ls rs
  unfolding collect next merged merge_join_by_path
  collect-merged zero [] [] h = refl
  collect-merged zero [] (r ∷ rs) h = absurd (omega arith)
  collect-merged zero (l ∷ ls) rs h = absurd (omega arith)
  collect-merged (suc fuel) [] [] h = refl
  collect-merged (suc fuel) [] (r ∷ rs) h = rw (collect-merged fuel [] rs (omega arith))
  collect-merged (suc fuel) (l ∷ ls) [] h = rw (collect-merged fuel ls [] (omega arith))
  collect-merged (suc fuel) (l ∷ ls) (r ∷ rs) h = ground (
    arith,
    collect-merged fuel ls (r ∷ rs),
    collect-merged fuel (l ∷ ls) rs,
    collect-merged fuel ls rs,
  )
