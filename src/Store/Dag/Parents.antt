-- ===== src/Store/Dag/Parents.antt =====
-- `Dag::traverse_parents` (src/store.rs).
use git_cinnabar.Common.{
  ℕ, ◌≤◌, ◌<◌, ◌≡◌, inl, inr, Bool, List, [], ◌∷◌, some, length, take, reverse, arith,
}
use git_cinnabar.Store.Dag.{
  DagNode, Dag, unset, sorted, last_or, head_or, limit_of, enumerate, item, start_offsets,
  traverse_parents,
}
use git_cinnabar.Store.Dag.Selects.{Selects, Selects-below, enumerate-IsDown}
use git_cinnabar.Store.Dag.Marks.{
  In, IsMarked, set_starts-Sets, length-unset, unset-clear, get_elem?-lt,
}
use git_cinnabar.Store.Dag.Sorted.{
  IsSorted, In-sorted, sorted-IsSorted, head_or-le, last_or-In, le-last_or,
}
use git_cinnabar.Store.Dag.Valid.{IsAt, IsValid, start_offsets-In}
use git_cinnabar.Store.Dag.Up.{Ancestor, start, Marks, complete, walk_up-Selects}

limit-gt : (xs : List ℕ) (i : ℕ) → IsSorted xs → In i xs → i < limit_of xs
limit-gt [] i s m = absurd m
limit-gt (x ∷ xs) i s m = omega (arith, le-last_or x xs s i m)

limit-le : (n : ℕ) (xs : List ℕ) → ((i : ℕ) → In i xs → i < n) → limit_of xs ≤ n
limit-le n [] h = omega arith
limit-le n (x ∷ xs) h = omega (arith, h (last_or x xs) (last_or-In x xs))

module _ {N T : Type 0} (eq : N → N → Bool) (d : Dag N T) (nodes : List N)
    (follow : N → T → Bool) where
  -- In a valid graph, a traversal from some nodes to their parents does not panic. It gives
  -- exactly the nodes that are one of these or a parent of a followed node that it gives, each
  -- once, the youngest first.
  pub traverse_parents-Selects :
      IsValid eq d
      → (out : List (N × T)) × (traverse_parents eq nodes follow d ≡ some out)
        × Selects
            (λ (e : ℕ × DagNode N T). Ancestor d.dag follow (IsAt d nodes) e.0)
            (λ (e : ℕ × DagNode N T). item e.1)
            (reverse (enumerate 0 d.dag))
            out
  unfolding traverse_parents
  traverse_parents-Selects v =
      let starts : List ℕ = sorted (start_offsets eq nodes d) in
      let limit : ℕ = limit_of starts in
      let order = sorted-IsSorted (start_offsets eq nodes d) in
      let to_start : (i : ℕ) → In i starts → IsAt d nodes i =
        λ i m. (start_offsets-In eq d nodes i v).0 ((In-sorted i _).0 m) in
      let of_start : (i : ℕ) → IsAt d nodes i → In i starts =
        λ i a. (In-sorted i _).1 ((start_offsets-In eq d nodes i v).1 a) in
      let small : limit ≤ length d.dag =
        limit-le (length d.dag) starts (λ i m. get_elem?-lt d.dag i (to_start i m).1) in
      let size = length-unset limit in
      let (bits, e, s) =
        set_starts-Sets starts (unset limit) (λ i m. rw (size) (limit-gt starts i order m)) in
      let set_In : (i : ℕ) → IsMarked bits i → In i starts =
        λ i h. elim (s.only i h) [ inl h ↦ absurd (unset-clear limit i h) | inr m ↦ m ] in
      let marks : Marks d.dag follow (IsAt d nodes) limit bits (head_or 0 starts) = record {
        size = omega (arith, s.size);
        sound = λ i h. start (to_start i (set_In i h));
        starts = λ i a. s.new i (of_start i a);
        closed = λ j n le g set f i p.
            let lt = limit-gt starts j order (set_In j set) in absurd (omega arith);
        least = λ i h. head_or-le 0 starts order i (set_In i h);
      } in
      let (out, w, sel) =
        walk_up-Selects d.dag follow (IsAt d nodes) v.below limit
          (reverse (enumerate 0 (take limit d.dag))) bits (head_or 0 starts)
          (enumerate-IsDown d.dag limit small) marks in
      let beyond : (i : ℕ) → limit ≤ i → ¬ Ancestor d.dag follow (IsAt d nodes) i = λ i le a.
        let lt =
          get_elem?-lt bits i
            (complete d.dag follow (IsAt d nodes) v.below marks (omega arith) a) in
        let l = s.size in absurd (omega arith) in
      (out, rw (e) w, Selects-below _ _ limit d.dag small beyond sel)
