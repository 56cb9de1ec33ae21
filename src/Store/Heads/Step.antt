-- ===== src/Store/Heads/Step.antt =====
-- One call of `ChangesetHeads::add` (src/store.rs).
use git_cinnabar.Common.{
  ℕ, suc, ◌-◌, ◌<◌, ◌≡◌, ap, sym, ◌∙◌, ◌⊎◌, inl, inr, true, false, List, Bytes, some, length,
  get_elem?, arith,
}
use git_cinnabar.Oid.{Oid}
use git_cinnabar.Store.Dag.{Dag, DagNodeId, parent_offsets}
use git_cinnabar.Store.Dag.Marks.{In, get_elem?-lt}
use git_cinnabar.Store.Dag.Valid.{IsAt}
use git_cinnabar.Store.Dag.Add.{
  Added, Added-parents, get_elem?-append, get_elem?-last, get_elem?-cases,
}
use git_cinnabar.Store.Heads.{id_eq, ChangesetInfo, ChangesetHeads, set_insert}
use git_cinnabar.Store.Heads.Flags.{Node, flag_all, flag_all-Flagged, IsGraph}
use git_cinnabar.Store.Heads.Link.{Linked, before, flags-IsGraph}
use git_cinnabar.Store.Heads.Insert.{set_insert-In}
use git_cinnabar.Store.Heads.Invariant.{Child, IsBranchHead, IsHeads}

-- The state behind `add`: `e` is the new node.
module _ (s : ChangesetHeads) (v : IsHeads s) (cs : Oid) (parents : List Oid) (branch : Bytes)
    (id : DagNodeId) (d1 : Dag Oid ChangesetInfo)
    (a : Added id_eq cs parents (record { has_children = false; branch = branch }) s.dag id d1)
    (s' : ChangesetHeads)
    (l : Linked branch parents (record { dag = d1; heads = set_insert id s.heads }) s')
    (apart : ¬ In cs parents) (graph1 : IsGraph d1) where
  last : ℕ
  last = length s.dag.dag

  -- A node is an old one, or the new one.
  Origin : ℕ → Node → Type 0
  Origin i x = ((i < last) × (get_elem? s.dag.dag i ≡ some x)) ⊎ ((i ≡ last) × (x ≡ a.entry))

  origin :
      (i : ℕ) (x' : Node)
      → get_elem? s'.dag.dag i ≡ some x'
      → (x : Node) × (x' ≡ flag_all parents x) × Origin i x
  unfolding Origin last
  origin i x' g =
      let (x, gx, e) = before d1 s'.dag parents l.ids l.size l.flags i x' g in
      (x, e, get_elem?-cases s.dag.dag a.entry i (rw (a.dag) at gx))

  lift_old :
      (i : ℕ) (x : Node)
      → get_elem? s.dag.dag i ≡ some x
      → get_elem? s'.dag.dag i ≡ some (flag_all parents x)
  lift_old i x g =
      l.flags i x
        (rw (a.dag) (get_elem?-append s.dag.dag a.entry i (get_elem?-lt s.dag.dag i g) ∙ g))

  lift_new : get_elem? s'.dag.dag last ≡ some (flag_all parents a.entry)
  unfolding last
  lift_new = l.flags last a.entry (rw (a.dag) (get_elem?-last s.dag.dag a.entry))

  lift_child : (i : ℕ) → Child s.dag i → Child s'.dag i
  lift_child i c = record {
    place = c.place;
    at = flag_all parents c.at;
    here = lift_old c.place c.at c.here;
    parent = rw ((flag_all-Flagged parents c.at).parents) c.parent;
  }

  -- The new node is a child of its parents.
  new_child : (i : ℕ) → IsAt s.dag parents i → Child s'.dag i
  new_child i p = record {
    place = last;
    at = flag_all parents a.entry;
    here = lift_new;
    parent =
        rw ((flag_all-Flagged parents a.entry).parents) ((Added-parents id_eq v.graph a i).1 p);
  }

  -- A child is an old one, or the new node.
  child_cases :
      (i : ℕ) (c : Child s'.dag i)
      → ((o : Child s.dag i) × (o.at.content.branch ≡ c.at.content.branch))
        ⊎ (IsAt s.dag parents i × (c.at.content.branch ≡ branch))
  unfolding Origin
  child_cases i c =
      let (x, e, o) = origin c.place c.at c.here in
      let f = flag_all-Flagged parents x in
      let same : parent_offsets c.at ≡ parent_offsets x =
        ap (λ (z : Node). parent_offsets z) e ∙ f.parents in
      let branched : c.at.content.branch ≡ x.content.branch =
        ap (λ (z : Node). z.content.branch) e ∙ f.branch in
      let par : In i (parent_offsets x) = rw (same) at c.parent in
      elim o [
        | inl (lt, g) ↦
            inl (record { place = c.place; at = x; here = g; parent = par }, sym branched)
        | inr (_, x_e) ↦ inr (
          (Added-parents id_eq v.graph a i).0 (rw (x_e) at par),
          branched
              ∙ ap (λ (z : Node). z.content.branch) x_e
              ∙ ap (λ (z : ChangesetInfo). z.branch) a.filled,
        )
      ]

  -- The new node has no children.
  no_child : ¬ Child s'.dag last
  unfolding last
  no_child c = elim (child_cases last c) [
    | inl (o, _) ↦
        let lt = get_elem?-lt s.dag.dag o.place o.here in
        let lt' = v.graph.below o.place o.at o.here last o.parent in absurd (omega arith)
    | inr ((x, g, _), _) ↦ let lt = get_elem?-lt s.dag.dag last g in absurd (omega arith)
  ]

  child_of_flag :
      (i : ℕ) (n : Node)
      → get_elem? s'.dag.dag i ≡ some n
      → n.content.has_children ≡ true
      → Child s'.dag i
  unfolding Origin
  child_of_flag i n g h =
      let (x, e, o) = origin i n g in
      let f = flag_all-Flagged parents x in
      elim (f.set_by (sym (ap (λ (z : Node). z.content.has_children) e) ∙ h)) [
        | inl h ↦ elim o [
          | inl (_, gx) ↦ lift_child i (v.child_of_flag i x gx h)
          | inr (_, x_e) ↦
              let none_yet : a.entry.content.has_children ≡ false =
                ap (λ (z : ChangesetInfo). z.has_children) a.filled in
              let h' : a.entry.content.has_children ≡ true = rw (x_e) at h in cc
        ]
        | inr m ↦ elim o [
          | inl (_, gx) ↦ new_child i (x, gx, m)
          | inr (_, x_e) ↦
              let named : x.node ≡ cs = ap (λ (z : Node). z.node) x_e ∙ a.named in
              absurd (apart (rw (named) at m))
        ]
      ]

  flag_of_child :
      (i : ℕ) (n : Node)
      → get_elem? s'.dag.dag i ≡ some n
      → Child s'.dag i
      → n.content.has_children ≡ true
  unfolding Origin
  flag_of_child i n g c =
      let (x, e, o) = origin i n g in
      let f = flag_all-Flagged parents x in
      let on_n = λ (h : (flag_all parents x).content.has_children ≡ true).
        ap (λ (z : Node). z.content.has_children) e ∙ h in
      elim o [
        | inr (here, _) ↦ absurd (no_child (rw (here) at c))
        | inl (_, gx) ↦ elim (child_cases i c) [
          | inl (old, _) ↦ on_n (f.kept (v.flag_of_child i x gx old))
          | inr ((y, gy, m), _) ↦ let same : y ≡ x = cc in on_n (f.set (rw (same) at m))
        ]
      ]

  full :
      (i : ℕ) (n : Node)
      → get_elem? s'.dag.dag i ≡ some n
      → IsBranchHead s'.dag i n
      → In (suc i) s'.heads
  unfolding Origin last lift_child new_child
  full i n g h =
      let (x, e, o) = origin i n g in
      let f = flag_all-Flagged parents x in
      let branched : n.content.branch ≡ x.content.branch =
        ap (λ (z : Node). z.content.branch) e ∙ f.branch in
      elim o [
        | inl (lt, gx) ↦
            l.remain (suc i)
              ((set_insert-In id s.heads (suc i)).1 (
                inr (
                  v.full i x gx (λ c br.
                    h (lift_child i c)
                      ((flag_all-Flagged parents c.at).branch ∙ br ∙ sym branched)))))
              (λ j y same gy m br.
                let here : i ≡ j = omega arith in
                let gy' : get_elem? d1.dag i ≡ some y = rw (here) gy in
                let gx' : get_elem? d1.dag i ≡ some x =
                  rw (a.dag) (get_elem?-append s.dag.dag a.entry i lt ∙ gx) in
                let y_x : y ≡ x = cc in
                let c = new_child i (x, gx, rw (y_x) at m) in
                h c (
                  (flag_all-Flagged parents a.entry).branch
                  ∙ ap (λ (z : ChangesetInfo). z.branch) a.filled
                  ∙ sym (branched ∙ sym (ap (λ (z : Node). z.content.branch) y_x) ∙ br)))
        | inr (here, x_e) ↦
            l.remain (suc i)
              ((set_insert-In id s.heads (suc i)).1 (inl (ap suc here ∙ sym a.place)))
              (λ j y same gy m br.
                let there : j ≡ last = omega arith in
                let gy' : get_elem? d1.dag last ≡ some y = rw (there) at gy in
                let ge : get_elem? d1.dag last ≡ some a.entry =
                  rw (a.dag) (get_elem?-last s.dag.dag a.entry) in
                let y_e : y ≡ a.entry = cc in
                let named : y.node ≡ cs = ap (λ (z : Node). z.node) y_e ∙ a.named in
                absurd (apart (rw (named) at m)))
      ]

  sound :
      (k : DagNodeId)
      → In k s'.heads
      → (n : Node) × (k ≡ suc (k - 1))
        × (get_elem? s'.dag.dag (k - 1) ≡ some n)
        × IsBranchHead s'.dag (k - 1) n
  unfolding last
  sound k m = elim ((set_insert-In id s.heads k).0 (l.old k m)) [
    | inl e ↦
        let place = a.place in
        let here : k - 1 ≡ last = omega arith in
        (
          flag_all parents a.entry,
          omega arith,
          rw (here) lift_new,
          λ c. absurd (no_child (rw (here) at c)),
        )
    | inr m' ↦
        let (n, pos, g, h) = v.sound k m' in
        let f = flag_all-Flagged parents n in
        let g1 : get_elem? d1.dag (k - 1) ≡ some n =
          rw (a.dag)
            (get_elem?-append s.dag.dag a.entry (k - 1) (get_elem?-lt s.dag.dag (k - 1) g) ∙ g) in
        (
          flag_all parents n,
          pos,
          lift_old (k - 1) n g,
          λ c br. elim (child_cases (k - 1) c) [
            | inl (o, same) ↦ h o (same ∙ br ∙ f.branch)
            | inr ((y, gy, m_y), on) ↦
                let y_n : y ≡ n = cc in
                l.dropped (k - 1) n g1 (rw (y_n) at m_y) (sym (f.branch) ∙ sym br ∙ on)
                  (rw (pos) at m)
          ],
        )
  ]

  pub added-IsHeads : IsHeads s'
  added-IsHeads = record {
    graph = flags-IsGraph d1 s'.dag parents l.ids l.size l.flags graph1;
    ordered = l.strict;
    child_of_flag = child_of_flag;
    flag_of_child = flag_of_child;
    sound = sound;
    full = full;
  }
