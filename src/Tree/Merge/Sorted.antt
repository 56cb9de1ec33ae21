-- ===== src/Tree/Merge/Sorted.antt =====
-- Merging listings that are in strict order of their recursed names gives such a listing.
use git_cinnabar.Common.{
  ℕ, ◌+◌, ◌≤◌, length, ◌≡◌, List, [], ◌∷◌, Bytes, All, Ordering, cmp, cmp_trans, cmp-eq, cmp-gt,
  Ordering-cases, map, sym, ◌∙◌, inl, inr, arith, Bool,
}
use git_cinnabar.Tree.Iter.{collect}
use git_cinnabar.Tree.Merge.{merged, next, merge_join_by_path, collect-merged}
use git_cinnabar.Tree.Order.{recursed_name, TreeLacksSlash, cmp_path-recursed_name}
use git_cinnabar.Tree.{WithPath, EitherOrBoth, MayRecurse, with_path, map_inner, cmp_path}

-- A side of `EitherOrBoth` says whether the item may be recursed; the source asserts that both
-- sides agree.
abbrev pub side_may_recurse {ℓ κ} :
    {L : Type ℓ} {R : Type κ} → ⦃tl : MayRecurse L⦄ → ⦃tr : MayRecurse R⦄ → EitherOrBoth L R → Bool
side_may_recurse ⦃tl⦄ ⦃tr⦄ (EitherOrBoth.left l) = tl.may_recurse l
side_may_recurse ⦃tl⦄ ⦃tr⦄ (EitherOrBoth.right r) = tr.may_recurse r
side_may_recurse ⦃tl⦄ ⦃tr⦄ (EitherOrBoth.both l r) = tl.may_recurse l

abbrev pub name_of {ℓ} : {T : Type ℓ} ⦃t : MayRecurse T⦄ → WithPath T → Bytes
name_of ⦃t⦄ w = recursed_name (t.may_recurse w.inner) w.path

abbrev pub IsNamed {ℓ} : {T : Type ℓ} ⦃t : MayRecurse T⦄ → WithPath T → Type 0
IsNamed ⦃t⦄ w = TreeLacksSlash (t.may_recurse w.inner) w.path

abbrev pub LessThan : Bytes → Bytes → Type 0
LessThan x y = cmp x y ≡ Ordering.lt

-- Strictly increasing.
abbrev pub IsSorted : List Bytes → Type 0
IsSorted [] = Unit
IsSorted (x ∷ xs) = All (LessThan x) xs × IsSorted xs

pub LessThan-All :
    (x y : Bytes) (zs : List Bytes) → LessThan x y → All (LessThan y) zs → All (LessThan x) zs
LessThan-All x y [] h k = tt
LessThan-All x y (z ∷ zs) h (k, ks) = (cmp_trans x y z h k, LessThan-All x y zs h ks)

module _ {ℓ κ} {L : Type ℓ} {R : Type κ} ⦃tl : MayRecurse L⦄ ⦃tr : MayRecurse R⦄ where
  abbrev pub merged_name : WithPath (EitherOrBoth L R) → Bytes
  merged_name w = recursed_name (side_may_recurse w.inner) w.path

  merged-All :
      (x : Bytes) (ls : List (WithPath L)) (rs : List (WithPath R))
      → All (LessThan x) (map name_of ls)
      → All (LessThan x) (map name_of rs)
      → All (LessThan x) (map merged_name (merged ls rs))
  unfolding merged map_inner with_path
  merged-All x [] [] h k = tt
  merged-All x [] (r ∷ rs) h (k, ks) = (k, merged-All x [] rs tt ks)
  merged-All x (l ∷ ls) [] (h, hs) k = (h, merged-All x ls [] hs tt)
  merged-All x (l ∷ ls) (r ∷ rs) (h, hs) (k, ks) = ground (
    arith,
    merged-All x ls (r ∷ rs) hs (k, ks),
    merged-All x (l ∷ ls) rs (h, hs) ks,
    merged-All x ls rs hs ks,
  )

  pub merged-IsSorted :
      (ls : List (WithPath L)) (rs : List (WithPath R))
      → All IsNamed ls
      → All IsNamed rs
      → IsSorted (map name_of ls)
      → IsSorted (map name_of rs)
      → IsSorted (map merged_name (merged ls rs))
  unfolding merged map_inner with_path
  merged-IsSorted [] [] nl nr sl sr = tt
  merged-IsSorted [] (r ∷ rs) nl (n, nr) sl (s, sr) =
      (merged-All (name_of r) [] rs tt s, merged-IsSorted [] rs tt nr tt sr)
  merged-IsSorted (l ∷ ls) [] (n, nl) nr (s, sl) sr =
      (merged-All (name_of l) ls [] s tt, merged-IsSorted ls [] nl tt sl tt)
  merged-IsSorted (l ∷ ls) (r ∷ rs) (n, nl) (m, nr) (s, sl) (t, sr) =
      let order = cmp_path-recursed_name l r n m in
      let before : (x : Bytes)
          → All (LessThan x) (map name_of ls)
          → All (LessThan x) (map name_of rs)
          → All (LessThan x) (map merged_name (merged ls rs)) =
        λ x. merged-All x ls rs in
      elim (Ordering-cases (cmp_path l r)) [
        | inl lt ↦
            let below = sym order ∙ lt in
            rw (lt, merged)
              (
                merged-All (name_of l) ls (r ∷ rs) s (below, LessThan-All _ _ _ below t),
                merged-IsSorted ls (r ∷ rs) nl (m, nr) sl (t, sr),
              )
        | inr (inl eq) ↦
            let same = cmp-eq (name_of l) (name_of r) (sym order ∙ eq) in
            rw (eq, merged) (before (name_of l) s (rw same t), merged-IsSorted ls rs nl nr sl sr)
        | inr (inr gt) ↦
            let below = cmp-gt (name_of l) (name_of r) (sym order ∙ gt) in
            rw (gt, merged)
              (
                merged-All (name_of r) (l ∷ ls) rs (below, LessThan-All _ _ _ below s) t,
                merged-IsSorted (l ∷ ls) rs (n, nl) nr (s, sl) sr,
              )
      ]

  -- If both listings are in strict order of their names, those of trees with a slash behind them,
  -- and no tree has a slash in its name, what the iterator returns is in that order, in as many
  -- calls as there are entries.
  pub collect-IsSorted :
      (fuel : ℕ) (ls : List (WithPath L)) (rs : List (WithPath R))
      → length ls + length rs ≤ fuel
      → All IsNamed ls
      → All IsNamed rs
      → IsSorted (map name_of ls)
      → IsSorted (map name_of rs)
      → IsSorted (map merged_name (collect next fuel (merge_join_by_path ls rs)))
  collect-IsSorted fuel ls rs h nl nr sl sr =
      rw (collect-merged fuel ls rs h) (merged-IsSorted ls rs nl nr sl sr)
