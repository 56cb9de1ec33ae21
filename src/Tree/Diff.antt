-- ===== src/Tree/Diff.antt =====
-- src/tree_util.rs: `DiffByPath`, the iterator over the differences of two listings.
pub mod Same
pub mod Members
pub mod Sorted
use git_cinnabar.Common.{
  ℕ, zero, suc, ◌+◌, ◌≤◌, ◌<◌, ◌≡◌, refl, Bool, true, false, not, List, [], ◌∷◌, Option, none, some,
  length, arith, Ordering, Ordering-cases, Bool-cases, inl, inr,
}
use git_cinnabar.Tree.Iter.{collect, find, Yields, find-Yields, collect-Yields, filter}
use git_cinnabar.Tree.Merge.{MergeJoinByPath, merge_join_by_path, next, merged}
use git_cinnabar.Tree.{WithPath, EitherOrBoth, MayRecurse, with_path, map_inner, cmp_path}

-- `eq` is `PartialEq` of the two sides.
module _ {ℓ κ} {L : Type ℓ} {R : Type κ} (eq : L → R → Bool) where
  -- The test that `DiffByPath` searches by.
  unfoldable pub differs : WithPath (EitherOrBoth L R) → Bool
  differs w = elim w.inner [
    | EitherOrBoth.both a b ↦ not (eq a b)
    | EitherOrBoth.left a ↦ true
    | EitherOrBoth.right b ↦ true
  ]

module _ {ℓ κ} {L : Type ℓ} {R : Type κ} ⦃tl : MayRecurse L⦄ ⦃tr : MayRecurse R⦄
    (eq : L → R → Bool) where
  -- `DiffByPath` wraps the merge. The fuel is one more than the entries that are left.
  unfoldable pub next_diff :
      MergeJoinByPath L R → Option (WithPath (EitherOrBoth L R) × MergeJoinByPath L R)
  next_diff s = find next (differs eq) (suc (length s.left + length s.right)) s

module _ {ℓ κ} {L : Type ℓ} {R : Type κ} ⦃tl : MayRecurse L⦄ ⦃tr : MayRecurse R⦄ where
  merged-Yields :
      (ls : List (WithPath L)) (rs : List (WithPath R))
      → Yields next (merge_join_by_path ls rs) (merged ls rs)
  unfolding next merged merge_join_by_path
  merged-Yields [] [] = Yields.stop refl
  merged-Yields [] (r ∷ rs) = Yields.more refl (merged-Yields [] rs)
  merged-Yields (l ∷ ls) [] = Yields.more refl (merged-Yields ls [])
  merged-Yields (l ∷ ls) (r ∷ rs) = elim (Ordering-cases (cmp_path l r)) [
    | inl lt ↦ rw (lt, merged) (Yields.more (rw (lt, next)) (merged-Yields ls (r ∷ rs)))
    | inr (inl eq) ↦ rw (eq, merged) (Yields.more (rw (eq, next)) (merged-Yields ls rs))
    | inr (inr gt) ↦ rw (gt, merged) (Yields.more (rw (gt, next)) (merged-Yields (l ∷ ls) rs))
  ]

  next-falls :
      (ls : List (WithPath L)) (rs : List (WithPath R)) (a : WithPath (EitherOrBoth L R))
      (s : MergeJoinByPath L R)
      → next (merge_join_by_path ls rs) ≡ some (a, s)
      → length s.left + length s.right < length ls + length rs
  unfolding next merge_join_by_path
  next-falls [] [] a s e = ground arith
  next-falls [] (r ∷ rs) a s e = ground arith
  next-falls (l ∷ ls) [] a s e = ground arith
  next-falls (l ∷ ls) (r ∷ rs) a s e = ground arith

  Yields-length :
      {s : MergeJoinByPath L R} {items : List (WithPath (EitherOrBoth L R))}
      → Yields next s items
      → length items < suc (length s.left + length s.right)
  unfolding merge_join_by_path
  Yields-length (Yields.stop e) = omega arith
  Yields-length {s} (Yields.more {s' = s'} {a} e y) =
      omega (arith, next-falls s.left s.right a s' e, Yields-length y)

  length-merged :
      (ls : List (WithPath L)) (rs : List (WithPath R))
      → length (merged ls rs) ≤ length ls + length rs
  unfolding merged
  length-merged [] [] = omega arith
  length-merged [] (r ∷ rs) = omega (arith, length-merged [] rs)
  length-merged (l ∷ ls) [] = omega (arith, length-merged ls [])
  length-merged (l ∷ ls) (r ∷ rs) =
      ground (arith, length-merged ls (r ∷ rs), length-merged (l ∷ ls) rs, length-merged ls rs)

module _ {ℓ κ} {L : Type ℓ} {R : Type κ} ⦃tl : MayRecurse L⦄ ⦃tr : MayRecurse R⦄
    (eq : L → R → Bool) where
  pub diff_by_path-Yields :
      (ls : List (WithPath L)) (rs : List (WithPath R))
      → Yields (next_diff eq) (merge_join_by_path ls rs) (filter (differs eq) (merged ls rs))
  unfolding next_diff
  diff_by_path-Yields ls rs =
      find-Yields next (differs eq) (λ s. suc (length s.left + length s.right))
        (λ s items y. Yields-length y) _ (merged-Yields ls rs) (length-merged ls rs)

  -- What is in one of two listings only, or in both with values that are not equal, where an entry
  -- that comes before the other listing's next one is in the first listing only.
  pub data Differences
      : List (WithPath L)
        → List (WithPath R)
        → List (WithPath (EitherOrBoth L R))
        → Type (ℓ ⊔ κ) where
    nothing : Differences [] [] []
    last_left :
        {l : WithPath L} {ls : List (WithPath L)} {out : List (WithPath (EitherOrBoth L R))}
        → Differences ls [] out
        → Differences (l ∷ ls) [] (with_path l.path (EitherOrBoth.left l.inner) ∷ out)
    last_right :
        {r : WithPath R} {rs : List (WithPath R)} {out : List (WithPath (EitherOrBoth L R))}
        → Differences [] rs out
        → Differences [] (r ∷ rs) (with_path r.path (EitherOrBoth.right r.inner) ∷ out)
    only_left :
        {l : WithPath L} {r : WithPath R} {ls : List (WithPath L)} {rs : List (WithPath R)}
        {out : List (WithPath (EitherOrBoth L R))}
        → cmp_path l r ≡ Ordering.lt
        → Differences ls (r ∷ rs) out
        → Differences (l ∷ ls) (r ∷ rs) (with_path l.path (EitherOrBoth.left l.inner) ∷ out)
    only_right :
        {l : WithPath L} {r : WithPath R} {ls : List (WithPath L)} {rs : List (WithPath R)}
        {out : List (WithPath (EitherOrBoth L R))}
        → cmp_path l r ≡ Ordering.gt
        → Differences (l ∷ ls) rs out
        → Differences (l ∷ ls) (r ∷ rs) (with_path r.path (EitherOrBoth.right r.inner) ∷ out)
    changed :
        {l : WithPath L} {r : WithPath R} {ls : List (WithPath L)} {rs : List (WithPath R)}
        {out : List (WithPath (EitherOrBoth L R))}
        → cmp_path l r ≡ Ordering.eq
        → eq l.inner r.inner ≡ false
        → Differences ls rs out
        → Differences (l ∷ ls) (r ∷ rs) (with_path l.path (EitherOrBoth.both l.inner r.inner) ∷ out)
    same :
        {l : WithPath L} {r : WithPath R} {ls : List (WithPath L)} {rs : List (WithPath R)}
        {out : List (WithPath (EitherOrBoth L R))}
        → cmp_path l r ≡ Ordering.eq
        → eq l.inner r.inner ≡ true
        → Differences ls rs out
        → Differences (l ∷ ls) (r ∷ rs) out

  pub filter-Differences :
      (ls : List (WithPath L)) (rs : List (WithPath R))
      → Differences ls rs (filter (differs eq) (merged ls rs))
  unfolding merged differs map_inner with_path
  filter-Differences [] [] = nothing
  filter-Differences [] (r ∷ rs) = last_right (filter-Differences [] rs)
  filter-Differences (l ∷ ls) [] = last_left (filter-Differences ls [])
  filter-Differences (l ∷ ls) (r ∷ rs) = elim (Ordering-cases (cmp_path l r)) [
    | inl lt ↦ rw (lt, merged) (only_left lt (filter-Differences ls (r ∷ rs)))
    | inr (inl e) ↦ elim (Bool-cases (eq l.inner r.inner)) [
      | inl is ↦ rw (e, merged) (rw (is) (same e is (filter-Differences ls rs)))
      | inr is_not ↦ rw (e, merged) (rw (is_not) (changed e is_not (filter-Differences ls rs)))
    ]
    | inr (inr gt) ↦ rw (gt, merged) (only_right gt (filter-Differences (l ∷ ls) rs))
  ]
