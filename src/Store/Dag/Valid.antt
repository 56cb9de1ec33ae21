-- ===== src/Store/Dag/Valid.antt =====
-- The nodes of a `Dag` stand behind their parents, and its map of ids names each of them (src/store.rs).
use git_cinnabar.Common.{
  ℕ, suc, ◌-◌, ◌<◌, ◌≡◌, refl, ap, sym, ◌∙◌, ◌↔◌, inl, inr, Bool, List, [], ◌∷◌, none, some, All,
  Option-cases, length, get_elem?, arith,
}
use git_cinnabar.Store.Dag.{
  DagNode, Dag, DagNodeId, new, parent_offsets, lookup, start_offsets, start_ids,
}
use git_cinnabar.Store.Dag.Sorted.{Distinct}
use git_cinnabar.Store.Dag.Marks.{In}

module _ {N T : Type 0} where
  -- Every parent stands before its child.
  abbrev pub IsBelow : List (DagNode N T) → Type 0
  IsBelow dag =
      (j : ℕ) (n : DagNode N T)
      → get_elem? dag j ≡ some n
      → (i : ℕ) → In i (parent_offsets n)
      → i < j

  -- The node at a position is one of these.
  abbrev pub IsAt : Dag N T → List N → ℕ → Type 0
  IsAt d nodes i = (x : DagNode N T) × (get_elem? d.dag i ≡ some x) × In x.node nodes

  module _ (eq : N → N → Bool) where
    pub record IsValid (d : Dag N T) : Type 0 where
      pub sized : length d.ids ≡ length d.dag
      pub below : IsBelow d.dag
      pub found :
          (n : N) (id : DagNodeId)
          → lookup eq n d.ids ≡ some id
          → (x : DagNode N T) × (id ≡ suc (id - 1))
            × (get_elem? d.dag (id - 1) ≡ some x)
            × (x.node ≡ n)
      pub known :
          (i : ℕ) (x : DagNode N T)
          → get_elem? d.dag i ≡ some x
          → lookup eq x.node d.ids ≡ some (suc i)

    pub new-IsValid : IsValid new
    unfolding lookup
    new-IsValid = record {
      sized = refl;
      below = λ j n g i m. cc;
      found = λ n id l. cc;
      known = λ i x g. cc;
    }

    start_offsets-none :
        (d : Dag N T) (n : N) (ns : List N)
        → lookup eq n d.ids ≡ none
        → start_offsets eq (n ∷ ns) d ≡ start_offsets eq ns d
    unfolding start_offsets
    start_offsets-none d n ns e = rw (start_offsets, e)

    start_offsets-some :
        (d : Dag N T) (n : N) (ns : List N) (id : DagNodeId)
        → lookup eq n d.ids ≡ some id
        → start_offsets eq (n ∷ ns) d ≡ (id - 1) ∷ start_offsets eq ns d
    unfolding start_offsets
    start_offsets-some d n ns id e = rw (start_offsets, e)

    start_offsets-nil : (d : Dag N T) → start_offsets eq [] d ≡ []
    unfolding start_offsets
    start_offsets-nil d = refl

    pub start_offsets-In :
        (d : Dag N T) (nodes : List N) (i : ℕ)
        → IsValid d
        → In i (start_offsets eq nodes d) ↔ IsAt d nodes i
    start_offsets-In d [] i v = rw (start_offsets-nil d) (λ m. absurd m, λ a. absurd a.2)
    start_offsets-In d (n ∷ ns) i v = elim (Option-cases (lookup eq n d.ids)) [
      | inl e ↦ rw (start_offsets-none d n ns e) (
        λ m. let (x, g, m') = (start_offsets-In d ns i v).0 m in (x, g, inr m'),
        λ a. elim a.2 [
          | inl same ↦
              let l : lookup eq n d.ids ≡ some (suc i) = rw (sym same) (v.known i a.0 a.1) in cc
          | inr m ↦ (start_offsets-In d ns i v).1 (a.0, a.1, m)
        ],
      )
      | inr (id, e) ↦
          let (x, s, g, same) = v.found n id e in
          rw (start_offsets-some d n ns id e) (
            λ m. elim m [
              | inl here ↦ (x, rw (here) g, inl same)
              | inr m ↦ let (y, g', m') = (start_offsets-In d ns i v).0 m in (y, g', inr m')
            ],
            λ a. elim a.2 [
              | inl same' ↦
                  let l : lookup eq n d.ids ≡ some (suc i) = rw (sym same') (v.known i a.0 a.1) in
                  inl (ground arith)
              | inr m ↦ inr ((start_offsets-In d ns i v).1 (a.0, a.1, m))
            ],
          )
    ]

    -- The ids of nodes that are known, each once.
    pub start_ids-lem :
        (d : Dag N T) (nodes : List N)
        → IsValid d
        → All (λ n. (id : DagNodeId) × (lookup eq n d.ids ≡ some id)) nodes
        → Distinct nodes
        → (ids : List DagNodeId) × (start_ids eq nodes d ≡ some ids)
          × Distinct ids
          × ((id : DagNodeId) → In id ids → (id ≡ suc (id - 1)) × IsAt d nodes (id - 1))
          × ((i : ℕ) → IsAt d nodes i → In (suc i) ids)
    unfolding start_ids Distinct
    start_ids-lem d [] v k u = ([], refl, tt, λ id m. absurd m, λ i a. absurd a.2)
    start_ids-lem d (n ∷ ns) v ((id, l), k) (new_one, u) =
        let (ids, e, u', sound, full) = start_ids-lem d ns v k u in
        let (x, pos, g, same) = v.found n id l in
        (
          id ∷ ids,
          rw (start_ids, l, e),
          (
            λ m.
                let (_, (y, g', m')) = sound id m in
                let eq_xy : y ≡ x = cc in
                let eq_n : y.node ≡ n = ap (λ (z : DagNode N T). z.node) eq_xy ∙ same in
                new_one (rw (eq_n) at m'),
            u',
          ),
          λ id' m. elim m [
            | inl s ↦ rw (s) (pos, (x, g, inl same))
            | inr m ↦ let (pos', (y, g', m')) = sound id' m in (pos', (y, g', inr m'))
          ],
          λ i a. elim a.2 [
            | inl s ↦
                let l' : lookup eq n d.ids ≡ some (suc i) = rw (sym s) (v.known i a.0 a.1) in
                inl (ground arith)
            | inr m ↦ inr (full i (a.0, a.1, m))
          ],
        )
