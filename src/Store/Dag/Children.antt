-- ===== src/Store/Dag/Children.antt =====
-- `Dag::traverse_children` (src/store.rs).
use git_cinnabar.Common.{
  ℕ, suc, ◌-◌, ◌≤◌, ◌<◌, ◌≡◌, refl, inl, inr, Bool, List, [], ◌∷◌, some, All, length, drop, arith,
}
use git_cinnabar.Store.Dag.{
  DagNode, Dag, DagNodeId, item, unset, sorted, first_of, enumerate, lookup, traverse_children,
}
use git_cinnabar.Store.Dag.Selects.{Selects, drop-IsUp, Selects-above}
use git_cinnabar.Store.Dag.Marks.{In, get_elem?-lt, length-unset, unset-clear}
use git_cinnabar.Store.Dag.Sorted.{IsStrict, Distinct, In-sorted, sorted-IsStrict, All-In}
use git_cinnabar.Store.Dag.Valid.{IsAt, IsValid, start_ids-lem}
use git_cinnabar.Store.Dag.Down.{Descendant, from-le, walk_down-Selects}

first_of-le :
    (n : ℕ) (xs : List DagNodeId) → IsStrict xs → (i : ℕ) → In (suc i) xs → first_of n xs ≤ i
first_of-le n [] s i m = absurd m
first_of-le n (x ∷ xs) (a, s) i (inl e) = omega arith
first_of-le n (x ∷ xs) (a, s) i (inr m) = let lt = All-In (λ y. x < y) xs a (suc i) m in omega arith

first_of-small :
    (n l : ℕ) (xs : List DagNodeId)
    → n ≤ l
    → ((id : DagNodeId) → In id xs → id - 1 ≤ l)
    → first_of n xs ≤ l
first_of-small n l [] h k = h
first_of-small n l (x ∷ xs) h k = k x (inl refl)

module _ {N T : Type 0} (eq : N → N → Bool) (d : Dag N T) (nodes : List N)
    (follow : N → T → Bool) where
  -- In a valid graph, a traversal from some nodes that it knows, no two of them the same, to their
  -- children does not panic. It gives exactly the nodes that are one of these or a child of a
  -- followed node that it gives, each once, the oldest first.
  pub traverse_children-Selects :
      IsValid eq d
      → All (λ n. (id : DagNodeId) × (lookup eq n d.ids ≡ some id)) nodes
      → Distinct nodes
      → (out : List (N × T)) × (traverse_children eq nodes follow d ≡ some out)
        × Selects
            (λ (e : ℕ × DagNode N T). Descendant d.dag follow (IsAt d nodes) e.0)
            (λ (e : ℕ × DagNode N T). item e.1)
            (enumerate 0 d.dag)
            out
  unfolding traverse_children
  traverse_children-Selects v known distinct =
      let (ids, e, u, sound, full) = start_ids-lem eq d nodes v known distinct in
      let starts : List DagNodeId = sorted ids in
      let from : ℕ = first_of (length d.ids) starts in
      let to_id = λ (id : DagNodeId) (m : In id starts). sound id ((In-sorted id ids).0 m) in
      let of_start = λ (i : ℕ) (a : IsAt d nodes i). (In-sorted (suc i) ids).1 (full i a) in
      let strict = sorted-IsStrict ids u in
      let floor : (i : ℕ) → IsAt d nodes i → from ≤ i =
        λ i a. first_of-le (length d.ids) starts strict i (of_start i a) in
      let sized = v.sized in
      let small : from ≤ length d.dag =
        first_of-small (length d.ids) (length d.dag) starts (omega arith) (λ id m.
          let (_, (x, g, _)) = to_id id m in
          let lt = get_elem?-lt d.dag (id - 1) g in omega arith) in
      let size = length-unset (length d.ids - from) in
      let (out, w, sel) =
        walk_down-Selects d.dag follow (IsAt d nodes) v.below from floor from
          (drop from (enumerate 0 d.dag)) (unset (length d.ids - from)) starts (omega arith)
          (drop-IsUp d.dag from small)
          (record {
            size = omega arith;
            sound = λ j le set. absurd (unset-clear (length d.ids - from) (j - from) set);
            complete = λ j n lt a g f.
                let le = from-le d.dag follow (IsAt d nodes) v.below from floor a in
                absurd (omega arith);
          })
          (record {
            strict = strict;
            sound = λ id m. let (pos, a) = to_id id m in (pos, floor (id - 1) a, a);
            complete = λ i a le. of_start i a;
          }) in
      (
        out,
        rw (e) w,
        Selects-above _ _ from d.dag small
            (λ i lt a.
              let le = from-le d.dag follow (IsAt d nodes) v.below from floor a in
              absurd (omega arith))
            sel,
      )
