-- ===== src/Tests/BranchHeads.antt =====
-- The heads of two branches, on small inputs.
use git_cinnabar.Common.{
  ℕ, ◌≡◌, refl, ap, arith, length, ◌+◌, ◌^◌, ◌<◌, [], ◌∷◌, List, Bytes, codes, bytes_eq, inl, inr,
  Option, none, some,
}
use git_cinnabar.Oid.{Oid, zeros}
use git_cinnabar.Store.Dag.{enumerate, lookup}
use git_cinnabar.Store.Dag.Marks.{In}
use git_cinnabar.Store.Dag.Selects.{Selects}
use git_cinnabar.Store.Heads.{ChangesetHeads, id_eq, new, add, heads, branch_heads}
use git_cinnabar.Store.Heads.Flags.{Node}
use git_cinnabar.Store.Heads.Invariant.{Child, IsBranchHead, IsHeads, new-IsHeads}
use git_cinnabar.Store.Heads.Correct.{add-some-IsHeads, add-IsHeads}
use git_cinnabar.Store.Heads.Listing.{listed_heads}

abbrev id : ℕ → Oid
id n = record { raw = n ∷ zeros 19 }

abbrev after : Option ChangesetHeads → ChangesetHeads
after none = new
after (some s) = s

abbrev root : ChangesetHeads
unfolding add
root = after (add (id 1) [] (codes "default") new)

-- The root has a child on another branch.
abbrev forked : ChangesetHeads
unfolding add
forked = after (add (id 2) (id 1 ∷ []) (codes "stable") root)

forked_heads :
    (branch_heads forked ≡ some ((id 1, codes "default") ∷ (id 2, codes "stable") ∷ []))
    × (heads forked ≡ some (id 2 ∷ []))
unfolding add branch_heads heads bytes_eq
forked_heads = (refl, refl)

root_added : add (id 1) [] (codes "default") new ≡ some root
unfolding add
root_added = refl

forked_added : add (id 2) (id 1 ∷ []) (codes "stable") root ≡ some forked
unfolding add bytes_eq
forked_added = refl

not_itself : ¬ In (id 2) (id 1 ∷ [])
not_itself m = elim m [ inl e ↦ cc (ap (λ (o : Oid). o.raw) e) | inr m ↦ m ]

root-IsHeads : IsHeads root
root-IsHeads = add-some-IsHeads new root (id 1) [] (codes "default") new-IsHeads (λ m. m) root_added

forked-IsHeads : IsHeads forked
forked-IsHeads =
    add-some-IsHeads root forked (id 2) (id 1 ∷ []) (codes "stable") root-IsHeads not_itself
      forked_added

id_2_is_new : lookup id_eq (id 2) root.dag.ids ≡ none
unfolding lookup add bytes_eq
id_2_is_new = refl

few_parents : length root.dag.dag + 1 < 2 ^ 32
unfolding add
few_parents = omega arith

add-IsHeads_example :
    (s' : ChangesetHeads) × (add (id 2) (id 1 ∷ []) (codes "stable") root ≡ some s') × IsHeads s'
add-IsHeads_example =
    add-IsHeads root (id 2) (id 1 ∷ []) (codes "stable") root-IsHeads not_itself (omega arith)
      id_2_is_new few_parents

listed_heads_example :
    ((out : List (Oid × Bytes)) × (branch_heads forked ≡ some out)
      × Selects
          (λ (e : ℕ × Node). IsBranchHead forked.dag e.0 e.1)
          (λ (e : ℕ × Node). (e.1.node, e.1.content.branch))
          (enumerate 0 forked.dag.dag)
          out)
    × ((out : List Oid) × (heads forked ≡ some out)
        × Selects
            (λ (e : ℕ × Node). ¬ Child forked.dag e.0)
            (λ (e : ℕ × Node). e.1.node)
            (enumerate 0 forked.dag.dag)
            out)
listed_heads_example = listed_heads forked forked-IsHeads
