-- ===== src/Store/Dag/Add.antt =====
-- `Dag::add` (src/store.rs).
use git_cinnabar.Common.{
  ℕ, zero, suc, ◌-◌, ◌≤◌, ◌<◌, ◌≡◌, refl, ap, sym, ◌∙◌, ◌⊎◌, ◌↔◌, inl, inr, Bool, true, List, [],
  ◌∷◌, ◌++◌, map, Option, none, some, Option-cases, leb, leb→le, length, length-append, get_elem?,
  Bool-cases, arith,
}
use git_cinnabar.Store.Dag.{
  DagNode, Dag, DagNodeId, try_from_offset, first, second, parent_offsets, lookup, get, get_ids,
  add, start_offsets,
}
use git_cinnabar.Store.Dag.Marks.{In, get_elem?-lt}
use git_cinnabar.Store.Dag.Valid.{IsAt, IsValid, start_offsets-In}

module _ {A : Type 0} where
  pub get_elem?-append :
      (xs : List A) (y : A) (i : ℕ) → i < length xs → get_elem? (xs ++ y ∷ []) i ≡ get_elem? xs i
  get_elem?-append [] y i h = absurd (omega arith)
  get_elem?-append (x ∷ xs) y zero h = refl
  get_elem?-append (x ∷ xs) y (suc i) h = get_elem?-append xs y i (omega arith)

  pub get_elem?-last : (xs : List A) (y : A) → get_elem? (xs ++ y ∷ []) (length xs) ≡ some y
  get_elem?-last [] y = refl
  get_elem?-last (x ∷ xs) y = get_elem?-last xs y

  -- A place in a list with one more element is in the list, or the last.
  pub get_elem?-cases :
      (xs : List A) (y : A) (i : ℕ) {a : A}
      → get_elem? (xs ++ y ∷ []) i ≡ some a
      → ((i < length xs) × (get_elem? xs i ≡ some a)) ⊎ ((i ≡ length xs) × (a ≡ y))
  get_elem?-cases [] y zero h = inr (refl, ground (arith))
  get_elem?-cases [] y (suc i) h = cc
  get_elem?-cases (x ∷ xs) y zero h = inl (omega arith, h)
  get_elem?-cases (x ∷ xs) y (suc i) h = elim (get_elem?-cases xs y i h) [
    | inl (lt, g) ↦ inl (omega arith, g)
    | inr (e, s) ↦ inr (ap suc e, s)
  ]

try_from_offset-eq : (n : ℕ) {id : DagNodeId} → try_from_offset n ≡ some id → id ≡ suc n
unfolding try_from_offset
try_from_offset-eq n h = ground arith

some-inj : {A : Type 0} {x y : A} → some x ≡ some y → x ≡ y
some-inj h = cc

module _ {N : Type 0} (eq : N → N → Bool) (eq_iff : (a b : N) → (eq a b ≡ true) ↔ (a ≡ b)) where
  lookup_new :
      (node n : N) (id : DagNodeId) (ids : List (N × DagNodeId))
      → ((node ≡ n) × (lookup eq n ((node, id) ∷ ids) ≡ some id))
        ⊎ ((¬ (node ≡ n)) × (lookup eq n ((node, id) ∷ ids) ≡ lookup eq n ids))
  unfolding lookup
  lookup_new node n id ids = elim (Bool-cases (eq node n)) [
    | inl e ↦ inl ((eq_iff node n).0 e, rw (lookup, e))
    | inr e ↦ inr (λ s. let t = (eq_iff node n).1 s in cc, rw (lookup, e))
  ]

module _ {N T : Type 0} (eq : N → N → Bool) where
  -- The ids of the parents, as offsets.
  get_ids-start_offsets :
      (d : Dag N T) (ps : List N)
      → IsValid eq d
      → map (λ id. id - 1) (get_ids eq ps d) ≡ start_offsets eq ps d
  unfolding get_ids get start_offsets
  get_ids-start_offsets d [] v = refl
  get_ids-start_offsets d (p ∷ ps) v = elim (Option-cases (lookup eq p d.ids)) [
    | inl e ↦ rw (get_ids, get, start_offsets, e) (get_ids-start_offsets d ps v)
    | inr (id, e) ↦
        let (x, pos, g, same) = v.found p id e in
        rw (get_ids, get, start_offsets, e, g) (ap (◌∷◌ (id - 1)) (get_ids-start_offsets d ps v))
  ]

  length-get_ids : (d : Dag N T) (ps : List N) → length (get_ids eq ps d) ≤ length ps
  unfolding get_ids
  length-get_ids d [] = omega arith
  length-get_ids d (p ∷ ps) = elim (Option-cases (get eq p d)) [
    | inl e ↦ rw (get_ids, e) (omega (arith, length-get_ids d ps))
    | inr (r, e) ↦ rw (get_ids, e) (omega (arith, length-get_ids d ps))
  ]

  -- What `add` has done, where it did not panic.
  pub record Added (node : N) (parents : List N) (content : T) (d : Dag N T) (id : DagNodeId)
      (d' : Dag N T) : Type 0 where
    pub entry : DagNode N T
    pub ids : d'.ids ≡ (node, id) ∷ d.ids
    pub dag : d'.dag ≡ d.dag ++ entry ∷ []
    pub place : id ≡ suc (length d.dag)
    pub fresh : lookup eq node d.ids ≡ none
    pub named : entry.node ≡ node
    pub filled : entry.content ≡ content
    pub parents_at : parent_offsets entry ≡ start_offsets eq parents d

  two_parents :
      (node : N) (content : T) (xs : List DagNodeId)
      → length xs ≤ 2
      → parent_offsets
          (record { node = node; parent1 = first xs; parent2 = second xs; content = content })
        ≡ map (λ id. id - 1) xs
  unfolding first second
  two_parents node content [] h = refl
  two_parents node content (a ∷ []) h = refl
  two_parents node content (a ∷ (b ∷ [])) h = refl
  two_parents node content (a ∷ (b ∷ (c ∷ xs))) h = absurd (omega arith)

  entry_of : N → List N → T → Dag N T → DagNode N T
  entry_of node parents content d = record {
    node = node;
    parent1 = first (get_ids eq parents d);
    parent2 = second (get_ids eq parents d);
    content = content;
  }

  added_lem :
      (node : N) (parents : List N) (content : T) (d : Dag N T) (id new_id : DagNodeId)
      (d' : Dag N T)
      → IsValid eq d
      → length parents ≤ 2
      → try_from_offset (length d.dag) ≡ some new_id
      → lookup eq node d.ids ≡ none
      → ◌≡◌ {A = Option (DagNodeId × Dag N T)}
          (some (
            new_id,
            record {
              ids = (node, new_id) ∷ d.ids;
              dag = d.dag ++ entry_of node parents content d ∷ [];
            },
          ))
          (some (id, d'))
      → Added node parents content d id d'
  unfolding entry_of
  added_lem node parents content d id new_id d' v two o l h =
      let made : DagNodeId × Dag N T = (
        new_id,
        record {
          ids = (node, new_id) ∷ d.ids;
          dag = d.dag ++ entry_of node parents content d ∷ [];
        },
      ) in
      let same : made ≡ (id, d') = some-inj h in
      let same_id : new_id ≡ id = ap (λ (r : DagNodeId × Dag N T). r.0) same in
      record {
        entry = entry_of node parents content d;
        ids = rw (sym same_id) (sym (ap (λ (r : DagNodeId × Dag N T). r.1.ids) same));
        dag = sym (ap (λ (r : DagNodeId × Dag N T). r.1.dag) same);
        place = sym same_id ∙ try_from_offset-eq (length d.dag) o;
        fresh = l;
        named = refl;
        filled = refl;
        parents_at =
            two_parents node content (get_ids eq parents d)
              (omega (arith, length-get_ids d parents))
            ∙ get_ids-start_offsets d parents v;
      }

  pub add-Added :
      (node : N) (parents : List N) (content : T) (d : Dag N T) (id : DagNodeId) (d' : Dag N T)
      → IsValid eq d
      → add eq node parents content d ≡ some (id, d')
      → Added node parents content d id d'
  unfolding add entry_of
  add-Added node parents content d id d' v h = elim (Bool-cases (leb (length parents) 2)) [
    | inr e ↦
        let h' : ◌≡◌ {A = Option (DagNodeId × Dag N T)} none (some (id, d')) = rw (add, e) at h in
        cc
    | inl e ↦ elim (Option-cases (try_from_offset (length d.dag))) [
      | inl o ↦
          let h' : ◌≡◌ {A = Option (DagNodeId × Dag N T)} none (some (id, d')) =
            rw (add, e, o) at h in
          cc
      | inr (new_id, o) ↦ elim (Option-cases (lookup eq node d.ids)) [
        | inr (_, l) ↦
            let h' : ◌≡◌ {A = Option (DagNodeId × Dag N T)} none (some (id, d')) =
              rw (add, e, o, l) at h in
            cc
        | inl l ↦
            added_lem node parents content d id new_id d' v (leb→le _ _ e) o l
              (rw (add, e, o, l) at h)
      ]
    ]
  ]

  -- The parents of the new node are those of the given ones that the graph has.
  pub Added-parents :
      {node : N} {parents : List N} {content : T} {d d' : Dag N T} {id : DagNodeId}
      → IsValid eq d
      → (a : Added node parents content d id d') → (i : ℕ)
      → In i (parent_offsets a.entry) ↔ IsAt d parents i
  Added-parents {parents = parents} {d = d} v a i =
      rw (a.parents_at) (start_offsets-In eq d parents i v)

  module _ (eq_iff : (a b : N) → (eq a b ≡ true) ↔ (a ≡ b)) where
    -- A graph stays valid, if `add` does not panic: ids and nodes name each other, and the parents of
    -- a node stand before it.
    pub add-IsValid :
        (node : N) (parents : List N) (content : T) (d : Dag N T) (id : DagNodeId) (d' : Dag N T)
        → IsValid eq d
        → add eq node parents content d ≡ some (id, d')
        → IsValid eq d'
    add-IsValid node parents content d id d' v h =
        let a = add-Added node parents content d id d' v h in
        let sized = v.sized in
        let place = a.place in
        record {
          sized = rw (a.ids, a.dag) (omega (arith, length-append d.dag (a.entry ∷ [])));
          below = λ j n g i p. elim (get_elem?-cases d.dag a.entry j (rw (a.dag) at g)) [
            | inl (lt, g') ↦ v.below j n g' i p
            | inr (e, s) ↦
                let p' : In i (parent_offsets a.entry) = rw (s) at p in
                let (x, g', _) = (Added-parents v a i).0 p' in rw (e) (get_elem?-lt d.dag i g')
          ];
          found = λ n k l. elim (lookup_new eq eq_iff node n id d.ids) [
            | inl (s, e) ↦
                let e' : some id ≡ some k = sym e ∙ (rw (a.ids) at l) in
                let same : id ≡ k = some-inj e' in
                let here : k - 1 ≡ length d.dag = omega arith in
                (a.entry, omega arith, rw (a.dag, here) (get_elem?-last d.dag a.entry), a.named ∙ s)
            | inr (ne, e) ↦
                let (x, pos, g, s) = v.found n k (sym e ∙ (rw (a.ids) at l)) in
                (
                  x,
                  pos,
                  rw (a.dag, get_elem?-append d.dag a.entry (k - 1) (get_elem?-lt d.dag (k - 1) g))
                      g,
                  s,
                )
          ];
          known = λ i x g. rw (a.ids) (elim (get_elem?-cases d.dag a.entry i (rw (a.dag) at g)) [
            | inl (lt, g') ↦ elim (lookup_new eq eq_iff node x.node id d.ids) [
              | inl (s, e) ↦
                  let l = v.known i x g' in
                  let fresh : lookup eq x.node d.ids ≡ none = rw (s) at a.fresh in cc
              | inr (ne, e) ↦ e ∙ v.known i x g'
            ]
            | inr (e, s) ↦ elim (lookup_new eq eq_iff node x.node id d.ids) [
              | inl (_, l) ↦ l ∙ ap some (omega arith)
              | inr (ne, _) ↦ absurd (ne (sym (ap (λ (z : DagNode N T). z.node) s ∙ a.named)))
            ]
          ]);
        }
