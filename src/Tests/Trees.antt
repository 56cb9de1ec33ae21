-- ===== src/Tests/Trees.antt =====
-- src/tree_util.rs on small listings. A value is true for a tree.
use git_cinnabar.Common.{
  ℕ, ◌≡◌, ◌≤◌, ◌↔◌, refl, Bool, true, false, not, List, [], ◌∷◌, All, codes, Bytes, some, map, inl,
  inr, ◌⊎◌, cmp, arith,
}
use git_cinnabar.Tree.{WithPath, EitherOrBoth, MayRecurse, with_path}
use git_cinnabar.Tree.Iter.{collect, Yields}
use git_cinnabar.Tree.Merge.{merged, next, merge_join_by_path, collect-merged}
use git_cinnabar.Tree.Merge.Sorted.{IsSorted, IsNamed, name_of, merged_name, collect-IsSorted}
use git_cinnabar.Store.Dag.Marks.{In}
use git_cinnabar.Tree.Diff.{next_diff}
use git_cinnabar.Tree.Diff.Members.{IsDifference}
use git_cinnabar.Tree.Diff.Sorted.{diff_by_path-IsDifference}
use git_cinnabar.Tree.Diff.Same.{diff_by_path_self}
use git_cinnabar.Tree.Recurse.{run, new, step}
use git_cinnabar.Tree.Recurse.Listing.{IsListing, recursed_listing}

instance bool_may_recurse : MayRecurse Bool
bool_may_recurse = record { may_recurse = λ b. b }

abbrev entry : Bytes → Bool → WithPath Bool
entry path is_tree = record { path = path; inner = is_tree }

-- A tree `a`, and files around it that sort before and behind `a/`.
abbrev left_listing : List (WithPath Bool)
left_listing = entry (codes "a-b") false ∷ entry (codes "a") true ∷ []

abbrev right_listing : List (WithPath Bool)
right_listing = entry (codes "a") true ∷ entry (codes "ab") false ∷ []

abbrev same_value : Bool → Bool → Bool
same_value true b = b
same_value false b = not b

same_value_sound : (a b : Bool) → same_value a b ≡ true → a ≡ b
same_value_sound true true h = refl
same_value_sound true false h = cc
same_value_sound false true h = cc
same_value_sound false false h = refl

same_value_refl : (a : Bool) → same_value a a ≡ true
same_value_refl true = refl
same_value_refl false = refl

left_IsNamed : All IsNamed left_listing
left_IsNamed = ground arith

right_IsNamed : All IsNamed right_listing
right_IsNamed = ground arith

left_IsSorted : IsSorted (map name_of left_listing)
unfolding cmp bool_may_recurse
left_IsSorted = ((refl, tt), (tt, tt))

right_IsSorted : IsSorted (map name_of right_listing)
unfolding cmp bool_may_recurse
right_IsSorted = ((refl, tt), (tt, tt))

collect-IsSorted_example :
    IsSorted (map merged_name (collect next 4 (merge_join_by_path left_listing right_listing)))
collect-IsSorted_example =
    collect-IsSorted 4 left_listing right_listing (omega arith) left_IsNamed right_IsNamed
      left_IsSorted right_IsSorted

collect-merged_example :
    collect next 4 (merge_join_by_path left_listing right_listing)
    ≡ merged left_listing right_listing
collect-merged_example = collect-merged 4 left_listing right_listing (omega arith)

diff_by_path-IsDifference_example :
    (out : List (WithPath (EitherOrBoth Bool Bool))) × Yields
      (next_diff same_value)
      (merge_join_by_path left_listing right_listing)
      out
    × IsSorted (map merged_name out)
    × ((w : WithPath (EitherOrBoth Bool Bool))
        → In w out ↔ IsDifference same_value left_listing right_listing w)
diff_by_path-IsDifference_example =
    diff_by_path-IsDifference same_value left_listing right_listing left_IsNamed right_IsNamed
      left_IsSorted right_IsSorted

no_difference : Yields (next_diff same_value) (merge_join_by_path left_listing left_listing) []
no_difference = diff_by_path_self same_value same_value_refl left_listing

-- Every tree holds one file `f`.
abbrev read_tree : Bool → List (WithPath Bool) ⊎ ℕ
read_tree true = inl (entry (codes "f") false ∷ [])
read_tree false = inr 0

left_IsListing :
    IsListing read_tree [] left_listing (with_path (codes "a-b") 0 ∷ with_path (codes "a/f") 0 ∷ [])
left_IsListing =
    IsListing.value refl (IsListing.tree refl (IsListing.value refl IsListing.done) IsListing.done)

recursed_listing_example :
    (f : ℕ) × ((g : ℕ)
      → f ≤ g
      → run read_tree g (new left_listing)
        ≡ some (with_path (codes "a-b") 0 ∷ with_path (codes "a/f") 0 ∷ []))
recursed_listing_example = recursed_listing read_tree left_IsListing

run_example :
    run read_tree 8 (new left_listing)
    ≡ some (with_path (codes "a-b") 0 ∷ with_path (codes "a/f") 0 ∷ [])
unfolding run with_path step
run_example = refl
