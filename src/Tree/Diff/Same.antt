-- ===== src/Tree/Diff/Same.antt =====
-- When a listing has no difference from another.
use git_cinnabar.Common.{
  ◌≡◌, refl, Bool, true, false, List, [], ◌∷◌, All, Bytes, arith, map, Ordering, cmp-eq, cmp_refl,
  compare, min, length, take, ℕ,
}
use git_cinnabar.Tree.Diff.{differs, next_diff, diff_by_path-Yields}
use git_cinnabar.Tree.Iter.{filter, Yields, Yields-unique}
use git_cinnabar.Tree.Merge.Sorted.{name_of, IsNamed}
use git_cinnabar.Tree.Merge.{merged, merge_join_by_path}
use git_cinnabar.Tree.Order.{cmp_path-recursed_name}
use git_cinnabar.Tree.{WithPath, MayRecurse, with_path, map_inner, cmp_names, tail_order, cmp_path}

compare_refl : (n : ℕ) → compare n n ≡ Ordering.eq
compare_refl n = ground arith

cmp_names_refl : (s : Bool) (a : Bytes) → cmp_names s s a a ≡ Ordering.eq
unfolding cmp_names
cmp_names_refl true a =
    let n = min (length a) (length a) in
    rw (cmp_refl (take n a)) (rw (compare_refl (length a), tail_order))
cmp_names_refl false a = cmp_refl a

module _ {ℓ} {T : Type ℓ} ⦃t : MayRecurse T⦄ where
  cmp_path_refl : (w : WithPath T) → cmp_path w w ≡ Ordering.eq
  unfolding cmp_path
  cmp_path_refl w = cmp_names_refl (t.may_recurse w.inner) w.path

  -- A listing has no difference from itself, in whatever order its entries stand.
  pub diff_self :
      (eq : T → T → Bool)
      → ((a : T) → eq a a ≡ true)
      → (ws : List (WithPath T)) → filter (differs eq) (merged ws ws) ≡ []
  unfolding merged differs map_inner with_path
  diff_self eq eq_refl [] = refl
  diff_self eq eq_refl (w ∷ ws) =
      rw (cmp_path_refl w, merged) (rw (eq_refl w.inner) (diff_self eq eq_refl ws))

module _ {ℓ} {T : Type ℓ} ⦃t : MayRecurse T⦄ where
  -- Where no tree has a slash in its name and the values of equal entries are equal, listings with
  -- no difference hold the same values under the same names.
  pub same_of_diff :
      (eq : T → T → Bool)
      → ((a b : T) → eq a b ≡ true → a ≡ b)
      → (ls rs : List (WithPath T)) → All IsNamed ls
      → All IsNamed rs
      → filter (differs eq) (merged ls rs) ≡ []
      → (map name_of ls ≡ map name_of rs)
        × (map (λ (w : WithPath T). w.inner) ls ≡ map (λ (w : WithPath T). w.inner) rs)
  unfolding merged differs map_inner with_path
  same_of_diff eq sound [] [] nl nr h = (refl, refl)
  same_of_diff eq sound [] (r ∷ rs) nl nr h = cc
  same_of_diff eq sound (l ∷ ls) [] nl nr h = cc
  same_of_diff eq sound (l ∷ ls) (r ∷ rs) (n, nl) (m, nr) h = ground (
    arith,
    cmp_path-recursed_name l r n m,
    cmp-eq (name_of l) (name_of r),
    sound l.inner r.inner,
    same_of_diff eq sound ls rs nl nr,
  )

  -- Where no tree has a slash in its name and equal values are the same, two listings of which the
  -- iterator returns no difference hold the same values under the same names.
  pub same_of_diff_by_path :
      (eq : T → T → Bool)
      → ((a b : T) → eq a b ≡ true → a ≡ b)
      → (ls rs : List (WithPath T)) → All IsNamed ls
      → All IsNamed rs
      → Yields (next_diff eq) (merge_join_by_path ls rs) []
      → (map name_of ls ≡ map name_of rs)
        × (map (λ (w : WithPath T). w.inner) ls ≡ map (λ (w : WithPath T). w.inner) rs)
  same_of_diff_by_path eq sound ls rs nl nr y =
      same_of_diff eq sound ls rs nl nr
        (Yields-unique (next_diff eq) (diff_by_path-Yields eq ls rs) y)

  -- The iterator returns no difference of a listing from itself, in whatever order its entries
  -- stand, where a value is equal to itself.
  pub diff_by_path_self :
      (eq : T → T → Bool)
      → ((a : T) → eq a a ≡ true)
      → (ws : List (WithPath T)) → Yields (next_diff eq) (merge_join_by_path ws ws) []
  diff_by_path_self eq eq_refl ws = rw (← diff_self eq eq_refl ws) (diff_by_path-Yields eq ws ws)
