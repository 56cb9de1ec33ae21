-- ===== src/Store/Heads/Link.antt =====
-- The loop of `ChangesetHeads::add` over the parents (src/store.rs).
use git_cinnabar.Common.{
  ℕ, suc, ◌-◌, ◌≡◌, ◌≢◌, refl, ap, sym, ◌∙◌, inl, inr, List, [], ◌∷◌, Bytes, none, some,
  Option-cases, if◌then◌else◌, length, length-set, get_elem?, bytes_eq, bytes_eq_iff, Bool-cases,
  arith,
}
use git_cinnabar.Oid.{Oid}
use git_cinnabar.Store.Dag.{Dag, DagNodeId, parent_offsets, get, lookup}
use git_cinnabar.Store.Dag.Marks.{In, get_elem?-lt, get_elem?-total}
use git_cinnabar.Store.Dag.Sorted.{IsStrict}
use git_cinnabar.Store.Heads.{id_eq, ChangesetInfo, ChangesetHeads, link, set_remove}
use git_cinnabar.Store.Heads.Flags.{
  Node, id_eq_iff, flag, flag_all, flag_all-Flagged, IsGraph, changed, changed-get, modify-some,
}
use git_cinnabar.Store.Heads.Remove.{set_remove-In, set_remove-IsStrict}

-- A graph whose nodes have got flags is valid as before.
module _ (d d' : Dag Oid ChangesetInfo) (ps : List Oid) (ids : d'.ids ≡ d.ids)
    (size : length d'.dag ≡ length d.dag)
    (flags : (i : ℕ) (x : Node)
      → get_elem? d.dag i ≡ some x
      → get_elem? d'.dag i ≡ some (flag_all ps x)) where
  pub before :
      (i : ℕ) (x' : Node)
      → get_elem? d'.dag i ≡ some x'
      → (x : Node) × (get_elem? d.dag i ≡ some x) × (x' ≡ flag_all ps x)
  before i x' g =
      let lt = get_elem?-lt d'.dag i g in
      let (x, gx) = get_elem?-total d.dag i (omega arith) in let g2 = flags i x gx in (x, gx, cc)

  pub flags-IsGraph : IsGraph d → IsGraph d'
  flags-IsGraph v =
      let sized = v.sized in
      record {
        sized = rw (ids) (omega arith);
        below = λ j n g i p.
            let (x, gx, e) = before j n g in
            let same : parent_offsets n ≡ parent_offsets x =
              ap (λ (z : Node). parent_offsets z) e ∙ (flag_all-Flagged ps x).parents in
            v.below j x gx i (rw (same) at p);
        found = λ n id l.
            let (x, pos, gx, named) = v.found n id (rw (ids) at l) in
            (flag_all ps x, pos, flags (id - 1) x gx, (flag_all-Flagged ps x).node ∙ named);
        known = λ i x' g.
            let (x, gx, e) = before i x' g in
            let same : x'.node ≡ x.node =
              ap (λ (z : Node). z.node) e ∙ (flag_all-Flagged ps x).node in
            rw (ids, same) (v.known i x gx);
      }

pub record Linked (branch : Bytes) (ps : List Oid) (s s' : ChangesetHeads) : Type 0 where
  pub ids : s'.dag.ids ≡ s.dag.ids
  pub size : length s'.dag.dag ≡ length s.dag.dag
  pub flags :
      (i : ℕ) (x : Node)
      → get_elem? s.dag.dag i ≡ some x
      → get_elem? s'.dag.dag i ≡ some (flag_all ps x)
  pub strict : IsStrict s'.heads
  pub old : (id : DagNodeId) → In id s'.heads → In id s.heads
  pub dropped :
      (i : ℕ) (x : Node)
      → get_elem? s.dag.dag i ≡ some x
      → In x.node ps
      → x.content.branch ≡ branch
      → ¬ In (suc i) s'.heads
  pub remain :
      (id : DagNodeId)
      → In id s.heads
      → ((i : ℕ) (x : Node)
          → id ≡ suc i
          → get_elem? s.dag.dag i ≡ some x
          → In x.node ps
          → x.content.branch ≢ branch)
      → In id s'.heads

Linked-then :
    (branch : Bytes) (p : Oid) (ps : List Oid) (s s1 s2 : ChangesetHeads)
    → Linked branch (p ∷ []) s s1
    → Linked branch ps s1 s2
    → Linked branch (p ∷ ps) s s2
unfolding flag_all
Linked-then branch p ps s s1 s2 a b = record {
  ids = b.ids ∙ a.ids;
  size = b.size ∙ a.size;
  flags = λ i x g. b.flags i (flag p x) (a.flags i x g);
  strict = b.strict;
  old = λ id m. a.old id (b.old id m);
  dropped = λ i x g m br. elim m [
    | inl e ↦ λ m'. a.dropped i x g (inl e) br (b.old (suc i) m')
    | inr m ↦
        let f = flag_all-Flagged (p ∷ []) x in
        b.dropped i (flag p x) (a.flags i x g) (rw (f.node) m) (f.branch ∙ br)
  ];
  remain = λ id m h.
      b.remain id
        (a.remain id m (λ i x e g q br. elim q [ inl q ↦ h i x e g (inl q) br | inr q ↦ absurd q ]))
        (λ i y e g q br.
          let (x, gx, y_x) = before s.dag s1.dag (p ∷ []) a.ids a.size a.flags i y g in
          let f = flag_all-Flagged (p ∷ []) x in
          let named : y.node ≡ x.node = ap (λ (z : Node). z.node) y_x ∙ f.node in
          let branched : y.content.branch ≡ x.content.branch =
            ap (λ (z : Node). z.content.branch) y_x ∙ f.branch in
          h i x e gx (inr (rw (named) at q)) (sym branched ∙ br));
}

-- A parent that the graph does not have.
unknown-Linked :
    (branch : Bytes) (p : Oid) (s : ChangesetHeads)
    → IsGraph s.dag
    → IsStrict s.heads
    → lookup id_eq p s.dag.ids ≡ none
    → Linked branch (p ∷ []) s s
unfolding flag_all flag
unknown-Linked branch p s v t l =
    let other : (i : ℕ) (x : Node) → get_elem? s.dag.dag i ≡ some x → ¬ (x.node ≡ p) = λ i x g e.
      let k : lookup id_eq p s.dag.ids ≡ some (suc i) = rw (e) at (v.known i x g) in cc in
    record {
      ids = refl;
      size = refl;
      flags = λ i x g. elim (Bool-cases (id_eq x.node p)) [
        | inl e ↦ absurd (other i x g ((id_eq_iff x.node p).0 e))
        | inr e ↦ rw (e) g
      ];
      strict = t;
      old = λ id m. m;
      dropped = λ i x g m br. elim m [ inl e ↦ absurd (other i x g e) | inr m ↦ absurd m ];
      remain = λ id m h. m;
    }

abbrev heads_left : Bytes → DagNodeId → Node → List DagNodeId → List DagNodeId
heads_left branch id n hs = if bytes_eq n.content.branch branch then set_remove id hs else hs

-- A parent that the graph has.
known-Linked :
    (branch : Bytes) (p : Oid) (s : ChangesetHeads) (id : DagNodeId) (n : Node)
    → IsGraph s.dag
    → IsStrict s.heads
    → lookup id_eq p s.dag.ids ≡ some id
    → id ≡ suc (id - 1)
    → get_elem? s.dag.dag (id - 1) ≡ some n
    → n.node ≡ p
    → Linked branch
        (p ∷ [])
        s
        (record { dag = changed id n s.dag; heads = heads_left branch id n s.heads })
unfolding flag_all
known-Linked branch p s id n v t l pos g named =
    let same_node : (i : ℕ) (x : Node) → get_elem? s.dag.dag i ≡ some x → x.node ≡ p → suc i ≡ id =
      λ i x gx e.
        let k : lookup id_eq p s.dag.ids ≡ some (suc i) = rw (e) at (v.known i x gx) in
        ground (arith) in
    let removed = λ (y : DagNodeId). set_remove-In id s.heads y t in
    elim (Bool-cases (bytes_eq n.content.branch branch)) [
      | inl e ↦ rw (e) (record {
        ids = refl;
        size = length-set s.dag.dag (id - 1) _;
        flags = λ i x gx. changed-get p s.dag id n v l g i x gx;
        strict = set_remove-IsStrict id s.heads t;
        old = λ y m. ((removed y).0 m).0;
        dropped = λ i x gx m br m'. elim m [
          | inl q ↦ ((removed (suc i)).0 m').1 (same_node i x gx q)
          | inr q ↦ absurd q
        ];
        remain = λ y m h. (removed y).1 (
          m,
          λ q. h (id - 1) n (q ∙ pos) g (inl named) ((bytes_eq_iff n.content.branch branch).0 e),
        );
      })
      | inr e ↦ rw (e) (record {
        ids = refl;
        size = length-set s.dag.dag (id - 1) _;
        flags = λ i x gx. changed-get p s.dag id n v l g i x gx;
        strict = t;
        old = λ y m. m;
        dropped = λ i x gx m br m'. elim m [
          | inl q ↦
              let here : i ≡ id - 1 = omega (arith, same_node i x gx q) in
              let gn : get_elem? s.dag.dag (id - 1) ≡ some x = rw (here) at gx in
              let x_n : x ≡ n = cc in
              let br' : n.content.branch ≡ branch =
                sym (ap (λ (z : Node). z.content.branch) x_n) ∙ br in
              let tt' = (bytes_eq_iff n.content.branch branch).1 br' in cc
          | inr q ↦ absurd q
        ];
        remain = λ y m h. m;
      })
    ]

link-none :
    (branch : Bytes) (p : Oid) (ps : List Oid) (s : ChangesetHeads)
    → lookup id_eq p s.dag.ids ≡ none
    → link branch (p ∷ ps) s ≡ link branch ps s
unfolding link get
link-none branch p ps s e = rw (link, get, e)

link-some :
    (branch : Bytes) (p : Oid) (ps : List Oid) (s : ChangesetHeads) (id : DagNodeId) (n : Node)
    → lookup id_eq p s.dag.ids ≡ some id
    → get_elem? s.dag.dag (id - 1) ≡ some n
    → link branch (p ∷ ps) s
      ≡ link branch ps (record { dag = changed id n s.dag; heads = heads_left branch id n s.heads })
unfolding link get
link-some branch p ps s id n e g = rw (link, get, e, g, modify-some p s.dag id n e g)

pub link-Linked :
    (branch : Bytes) (ps : List Oid) (s : ChangesetHeads)
    → IsGraph s.dag
    → IsStrict s.heads
    → Linked branch ps s (link branch ps s)
unfolding link flag_all
link-Linked branch [] s v t = record {
  ids = refl;
  size = refl;
  flags = λ i x g. g;
  strict = t;
  old = λ id m. m;
  dropped = λ i x g m b. absurd m;
  remain = λ id m h. m;
}
link-Linked branch (p ∷ ps) s v t = elim (Option-cases (lookup id_eq p s.dag.ids)) [
  | inl e ↦ rw (link-none branch p ps s e) (
      Linked-then branch p ps s s _ (unknown-Linked branch p s v t e) (link-Linked branch ps s v t))
  | inr (id, e) ↦
      let (n, pos, g, named) = v.found p id e in
      let s1 : ChangesetHeads = record {
        dag = changed id n s.dag;
        heads = heads_left branch id n s.heads;
      } in
      let one = known-Linked branch p s id n v t e pos g named in
      let v1 = flags-IsGraph s.dag s1.dag (p ∷ []) one.ids one.size one.flags v in
      rw (link-some branch p ps s id n e g)
        (Linked-then branch p ps s s1 _ one (link-Linked branch ps s1 v1 one.strict))
]
