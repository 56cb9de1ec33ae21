-- ===== src/Store/Heads/Flags.antt =====
-- What `ChangesetHeads::add` does to the parents of a changeset (src/store.rs).
use git_cinnabar.Common.{
  ℕ, suc, ◌-◌, ◌≡◌, ◌≢◌, refl, ap, sym, ◌∙◌, ◌⊎◌, ◌↔◌, inl, inr, true, List, [], ◌∷◌, some, ◌==◌,
  if◌then◌else◌, get_elem?, set, get_elem?-set_self, get_elem?-set_ne, bytes_eq_iff, Bool-cases,
  arith,
}
use git_cinnabar.Oid.{Oid}
use git_cinnabar.Store.Dag.{DagNode, Dag, DagNodeId, parent_offsets, modify, lookup}
use git_cinnabar.Store.Dag.Marks.{In, get_elem?-lt}
use git_cinnabar.Store.Dag.Valid.{IsValid}
use git_cinnabar.Store.Heads.{id_eq, ChangesetInfo, with_children}

pub id_eq_iff : (a b : Oid) → (id_eq a b ≡ true) ↔ (a ≡ b)
id_eq_iff a b = (
  λ e. let r : a.raw ≡ b.raw = (bytes_eq_iff a.raw b.raw).0 e in ground (arith),
  λ e. (bytes_eq_iff a.raw b.raw).1 (ap (λ (o : Oid). o.raw) e),
)

abbrev pub Node : Type 0
Node = DagNode Oid ChangesetInfo

unfoldable pub flag : Oid → Node → Node
flag p n = if id_eq n.node p then record n { content = with_children n.content } else n

unfoldable pub flag_all : List Oid → Node → Node
unfolding flag
flag_all [] n = n
flag_all (p ∷ ps) n = flag_all ps (flag p n)

-- A flag changes nothing else.
pub record Flagged (P : Type 0) (n n' : Node) : Type 0 where
  pub node : n'.node ≡ n.node
  pub parents : parent_offsets n' ≡ parent_offsets n
  pub branch : n'.content.branch ≡ n.content.branch
  pub set_by : n'.content.has_children ≡ true → (n.content.has_children ≡ true) ⊎ P
  pub kept : n.content.has_children ≡ true → n'.content.has_children ≡ true
  pub set : P → n'.content.has_children ≡ true

flag-Flagged : (p : Oid) (n : Node) → Flagged (n.node ≡ p) n (flag p n)
unfolding flag
flag-Flagged p n = elim (Bool-cases (id_eq n.node p)) [
  | inl e ↦
      let same = (id_eq_iff n.node p).0 e in
      rw (e) (record {
        node = refl;
        parents = refl;
        branch = refl;
        set_by = λ _. inr same;
        kept = λ _. refl;
        set = λ _. refl;
      })
  | inr e ↦ rw (e) (record {
    node = refl;
    parents = refl;
    branch = refl;
    set_by = inl;
    kept = λ h. h;
    set = λ same. let t = (id_eq_iff n.node p).1 same in cc;
  })
]

pub flag_all-Flagged : (ps : List Oid) (n : Node) → Flagged (In n.node ps) n (flag_all ps n)
unfolding flag_all
flag_all-Flagged [] n = record {
  node = refl;
  parents = refl;
  branch = refl;
  set_by = inl;
  kept = λ h. h;
  set = λ m. absurd m;
}
flag_all-Flagged (p ∷ ps) n =
    let a = flag-Flagged p n in
    let b = flag_all-Flagged ps (flag p n) in
    record {
      node = b.node ∙ a.node;
      parents = b.parents ∙ a.parents;
      branch = b.branch ∙ a.branch;
      set_by = λ h. elim (b.set_by h) [
        | inl h ↦ elim (a.set_by h) [ inl h ↦ inl h | inr e ↦ inr (inl e) ]
        | inr m ↦ inr (inr (rw (a.node) at m))
      ];
      kept = λ h. b.kept (a.kept h);
      set = λ m. elim m [ inl e ↦ b.kept (a.set e) | inr m ↦ b.set (rw (a.node) m) ];
    }

abbrev pub IsGraph : Dag Oid ChangesetInfo → Type 0
IsGraph = IsValid id_eq

abbrev pub changed : DagNodeId → Node → Dag Oid ChangesetInfo → Dag Oid ChangesetInfo
changed id n d = record d {
  dag = set d.dag (id - 1) (record n { content = with_children n.content });
}

pub modify-some :
    (p : Oid) (d : Dag Oid ChangesetInfo) (id : DagNodeId) (n : Node)
    → lookup id_eq p d.ids ≡ some id
    → get_elem? d.dag (id - 1) ≡ some n
    → modify id_eq p with_children d ≡ changed id n d
unfolding modify
modify-some p d id n l g = rw (modify, l, g)

-- In a valid graph a node has the flag of its name.
pub changed-get :
    (p : Oid) (d : Dag Oid ChangesetInfo) (id : DagNodeId) (n : Node)
    → IsGraph d
    → lookup id_eq p d.ids ≡ some id
    → get_elem? d.dag (id - 1) ≡ some n
    → (i : ℕ) (x : Node) → get_elem? d.dag i ≡ some x
    → get_elem? (changed id n d).dag i ≡ some (flag p x)
unfolding flag
changed-get p d id n v l g i x gx =
    let (y, pos, gy, same) = v.found p id l in
    elim (Bool-cases (i == id - 1)) [
      | inl e ↦
          let here : i ≡ id - 1 = ground arith in
          let gn : get_elem? d.dag (id - 1) ≡ some x = rw (here) at gx in
          let x_n : x ≡ n = cc in
          let y_n : y ≡ n = cc in
          let named : n.node ≡ p = sym (ap (λ (z : Node). z.node) y_n) ∙ same in
          rw (here, x_n, (id_eq_iff n.node p).1 named)
            (get_elem?-set_self d.dag (id - 1) _ (get_elem?-lt d.dag (id - 1) g))
      | inr e ↦
          let apart : id - 1 ≢ i = λ same. ground arith in
          elim (Bool-cases (id_eq x.node p)) [
            | inl named ↦
                let k : lookup id_eq p d.ids ≡ some (suc i) =
                  rw ((id_eq_iff x.node p).0 named) at (v.known i x gx) in
                let same_id : id ≡ suc i = cc in absurd (apart (omega arith))
            | inr other ↦ rw (other) (get_elem?-set_ne d.dag _ apart ∙ gx)
          ]
    ]
