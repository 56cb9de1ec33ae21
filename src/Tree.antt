-- ===== src/Tree.antt =====
-- src/tree_util.rs: values paired with a path, and the order of a listing that may be recursed.
pub mod Order
pub mod Parse
pub mod Iter
pub mod Merge
pub mod Diff
pub mod Recurse
use git_cinnabar.Common.{
  ℕ, ◌≡◌, Bool, true, false, not, ◌&&◌, [], ◌∷◌, ◌++◌, Bytes, if◌then◌else◌, length, take, drop,
  min, compare, Ordering, cmp, Option, none, some, bytes_eq, ◌⊎◌, inl, inr,
}

pub record WithPath {ℓ} (T : Type ℓ) : Type ℓ where
  pub path : Bytes
  pub inner : T

-- `itertools::EitherOrBoth`.
pub data EitherOrBoth {ℓ κ} (L : Type ℓ) (R : Type κ) : Type (ℓ ⊔ κ) where
  left : L → EitherOrBoth L R
  right : R → EitherOrBoth L R
  both : L → R → EitherOrBoth L R

unfoldable pub with_path {ℓ} : {T : Type ℓ} → Bytes → T → WithPath T
with_path path inner = record { path = path; inner = inner }

-- `WithPath::map`.
unfoldable pub map_inner {ℓ κ} : {T : Type ℓ} {U : Type κ} → (T → U) → WithPath T → WithPath U
unfolding with_path
map_inner f w = with_path w.path (f w.inner)

-- `WithPath::unzip`.
unfoldable pub unzip {ℓ} : {T : Type ℓ} → WithPath T → Bytes × T
unzip w = (w.path, w.inner)

pub record MayRecurse {ℓ} (T : Type ℓ) : Type ℓ where
  pub may_recurse : T → Bool

-- The order of two paths of which each may be a tree (`a_is_tree`, `b_is_tree`), once their common
-- length has compared equal.
tail_order : Bool → Bool → Bytes → Bytes → Ordering → Ordering
tail_order a_is_tree b_is_tree a b Ordering.eq =
    if a_is_tree && not b_is_tree
    then Ordering.gt
    else if not a_is_tree && b_is_tree
    then Ordering.lt
    else Ordering.eq
tail_order a_is_tree b_is_tree a b Ordering.gt =
    if b_is_tree then cmp (drop (min (length a) (length b)) a) (b'/' ∷ []) else Ordering.gt
tail_order a_is_tree b_is_tree a b Ordering.lt =
    if a_is_tree then cmp (b'/' ∷ []) (drop (min (length a) (length b)) b) else Ordering.lt

cmp_names : Bool → Bool → Bytes → Bytes → Ordering
unfolding tail_order
cmp_names a_is_tree b_is_tree a b =
    if not a_is_tree && not b_is_tree
    then cmp a b
    else let shortest_len = min (length a) (length b) in
      elim (cmp (take shortest_len a) (take shortest_len b)) [
        | Ordering.eq ↦ tail_order a_is_tree b_is_tree a b (compare (length a) (length b))
        | Ordering.lt ↦ Ordering.lt
        | Ordering.gt ↦ Ordering.gt
      ]

module _ {ℓ κ} {T : Type ℓ} {U : Type κ} ⦃t : MayRecurse T⦄ ⦃u : MayRecurse U⦄ where
  unfoldable pub cmp_path : WithPath T → WithPath U → Ordering
  unfolding cmp_names
  cmp_path a b = cmp_names (t.may_recurse a.inner) (u.may_recurse b.inner) a.path b.path

-- The `Transpose` implementations.
module _ {ℓ} {T : Type ℓ} where
  pub transpose_option : WithPath (Option T) → Option (WithPath T)
  transpose_option w = elim w.inner [ none ↦ none | some v ↦ some (with_path w.path v) ]

module _ {ℓ} {L R : Type ℓ} where
  pub transpose_either : WithPath (L ⊎ R) → WithPath L ⊎ WithPath R
  transpose_either w = elim w.inner [
    | inl l ↦ inl (with_path w.path l)
    | inr r ↦ inr (with_path w.path r)
  ]

  pub untranspose_either : WithPath L ⊎ WithPath R → WithPath (L ⊎ R)
  untranspose_either (inl l) = map_inner inl l
  untranspose_either (inr r) = map_inner inr r

  pub transpose_both : WithPath (EitherOrBoth L R) → EitherOrBoth (WithPath L) (WithPath R)
  transpose_both w = elim w.inner [
    | EitherOrBoth.left l ↦ EitherOrBoth.left (with_path w.path l)
    | EitherOrBoth.right r ↦ EitherOrBoth.right (with_path w.path r)
    | EitherOrBoth.both l r ↦ EitherOrBoth.both (with_path w.path l) (with_path w.path r)
  ]

  -- The error of the source, which gives the argument back, is `none`.
  pub untranspose_both :
      EitherOrBoth (WithPath L) (WithPath R) → Option (WithPath (EitherOrBoth L R))
  untranspose_both (EitherOrBoth.left l) = some (map_inner EitherOrBoth.left l)
  untranspose_both (EitherOrBoth.right r) = some (map_inner EitherOrBoth.right r)
  untranspose_both (EitherOrBoth.both l r) =
      if bytes_eq l.path r.path then some (map_inner (λ x. EitherOrBoth.both x r.inner) l) else none
