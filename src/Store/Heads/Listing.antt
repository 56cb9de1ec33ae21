-- ===== src/Store/Heads/Listing.antt =====
-- What `ChangesetHeads::heads` and `branch_heads` list (src/store.rs).
use git_cinnabar.Common.{
  ℕ, suc, ◌-◌, ◌≡◌, refl, ap, sym, ◌∙◌, inl, inr, Bool, true, List, [], ◌∷◌, Bytes, some,
  if◌then◌else◌, drop, get_elem?, Bool-cases, arith,
}
use git_cinnabar.Oid.{Oid}
use git_cinnabar.Store.Dag.{Dag, DagNodeId, enumerate, is_next}
use git_cinnabar.Store.Dag.Marks.{get_elem?-lt}
use git_cinnabar.Store.Dag.Selects.{Selects, done, keep, leave, IsUp, drop-IsUp}
use git_cinnabar.Store.Dag.Starts.{Starts, next-cases}
use git_cinnabar.Store.Heads.{
  ChangesetInfo, ChangesetHeads, heads_of, heads, branch_heads_of, branch_heads,
}
use git_cinnabar.Store.Heads.Flags.{Node}
use git_cinnabar.Store.Heads.Invariant.{Child, IsBranchHead, IsHeads}

branch_heads_of-cons :
    (d : Dag Oid ChangesetInfo) (ids rest : List DagNodeId) (idx : ℕ) (n : Node)
    (out : List (Oid × Bytes))
    → ids ≡ suc idx ∷ rest
    → get_elem? d.dag idx ≡ some n
    → branch_heads_of d rest ≡ some out
    → branch_heads_of d ids ≡ some ((n.node, n.content.branch) ∷ out)
unfolding branch_heads_of
branch_heads_of-cons d ids rest idx n out e g w =
    let m : suc idx - 1 ≡ idx = omega arith in rw (e, branch_heads_of, m, g, w)

heads_of-cons :
    (d : Dag Oid ChangesetInfo) (ids rest : List DagNodeId) (idx : ℕ) (n : Node) (out : List Oid)
    → ids ≡ suc idx ∷ rest
    → get_elem? d.dag idx ≡ some n
    → heads_of d rest ≡ some out
    → heads_of d ids ≡ some (if n.content.has_children then out else n.node ∷ out)
unfolding heads_of
heads_of-cons d ids rest idx n out e g w =
    let m : suc idx - 1 ≡ idx = omega arith in rw (e, heads_of, m, g, w)

module _ (s : ChangesetHeads) (v : IsHeads s) where
  Start : ℕ → Type 0
  Start i = (n : Node) × (get_elem? s.dag.dag i ≡ some n) × IsBranchHead s.dag i n

  -- An id at the front of the rest is that of the node where the walk is.
  next-eq :
      (k : ℕ) (ids : List DagNodeId)
      → is_next k ids ≡ true
      → Starts Start k ids
      → (rest : List DagNodeId) × (ids ≡ suc k ∷ rest) × (drop 1 ids ≡ rest)
  next-eq k [] e t = cc
  next-eq k (id ∷ ids) e t =
      let (pos, _, _) = t.sound id (inl refl) in
      let here : id ≡ suc k = ground arith in (ids, rw (here) refl, refl)

  walk_branch_heads :
      (k : ℕ) (es : List (ℕ × Node)) (ids : List DagNodeId)
      → IsUp s.dag.dag k es
      → Starts Start k ids
      → (out : List (Oid × Bytes)) × (branch_heads_of s.dag ids ≡ some out)
        × Selects
            (λ (e : ℕ × Node). IsBranchHead s.dag e.0 e.1)
            (λ (e : ℕ × Node). (e.1.node, e.1.content.branch))
            es
            out
  unfolding branch_heads_of Start
  walk_branch_heads k [] [] u t = ([], refl, done)
  walk_branch_heads k [] (id ∷ ids) u t =
      let (_, le, (n, g, _)) = t.sound id (inl refl) in
      let lt = get_elem?-lt s.dag.dag (id - 1) g in absurd (omega arith)
  walk_branch_heads k ((idx, n) ∷ es) ids (p, g, u) t =
      let q : k ≡ idx = sym p in
      let t : Starts Start idx ids = rw (q) at t in
      let u : IsUp s.dag.dag (suc idx) es = rw (q) at u in
      elim (next-cases Start idx ids t) [
        | inl (e, (x, gx, h), t') ↦
            let (rest, i, d) = next-eq idx ids e t in
            let same : x ≡ n = cc in
            let (out, w, sel) = walk_branch_heads (suc idx) es rest u (rw (d) at t') in
            (
              _ ∷ out,
              branch_heads_of-cons s.dag ids rest idx n out i g w,
              keep (rw (same) at h) sel,
            )
        | inr (e, no_start, t') ↦
            let (out, w, sel) = walk_branch_heads (suc idx) es ids u t' in
            (out, w, leave (λ h. no_start (n, g, h)) sel)
      ]

  walk_heads :
      (k : ℕ) (es : List (ℕ × Node)) (ids : List DagNodeId)
      → IsUp s.dag.dag k es
      → Starts Start k ids
      → (out : List Oid) × (heads_of s.dag ids ≡ some out)
        × Selects (λ (e : ℕ × Node). ¬ Child s.dag e.0) (λ (e : ℕ × Node). e.1.node) es out
  unfolding heads_of Start
  walk_heads k [] [] u t = ([], refl, done)
  walk_heads k [] (id ∷ ids) u t =
      let (_, le, (n, g, _)) = t.sound id (inl refl) in
      let lt = get_elem?-lt s.dag.dag (id - 1) g in absurd (omega arith)
  walk_heads k ((idx, n) ∷ es) ids (p, g, u) t =
      let q : k ≡ idx = sym p in
      let t : Starts Start idx ids = rw (q) at t in
      let u : IsUp s.dag.dag (suc idx) es = rw (q) at u in
      elim (next-cases Start idx ids t) [
        | inl (e, (x, gx, h), t') ↦
            let (rest, i, d) = next-eq idx ids e t in
            let same : x ≡ n = cc in
            let (out, w, sel) = walk_heads (suc idx) es rest u (rw (d) at t') in
            let flagged = heads_of-cons s.dag ids rest idx n out i g w in
            elim (Bool-cases n.content.has_children) [
              | inl f ↦ (
                out,
                flagged ∙ ap (λ (b : Bool). some (if b then out else n.node ∷ out)) f,
                leave (λ no_child. no_child (v.child_of_flag idx n g f)) sel,
              )
              | inr f ↦ (
                n.node ∷ out,
                flagged ∙ ap (λ (b : Bool). some (if b then out else n.node ∷ out)) f,
                keep (λ c. let t = v.flag_of_child idx n g c in cc) sel,
              )
            ]
        | inr (e, no_start, t') ↦
            let (out, w, sel) = walk_heads (suc idx) es ids u t' in
            (out, w, leave (λ no_child. no_start (n, g, λ c. absurd (no_child c))) sel)
      ]

  ids-Starts : Starts Start 0 s.heads
  unfolding Start
  ids-Starts = record {
    strict = v.ordered;
    sound = λ id m. let (n, pos, g, h) = v.sound id m in (pos, omega arith, (n, g, h));
    complete = λ i (n, g, h) le. v.full i n g h;
  }

  -- Where the record of the heads is right, `branch_heads` gives exactly the changesets without a
  -- child on their own branch, each with its branch, and `heads` exactly those without a child, both
  -- in the order in which they were added.
  pub listed_heads :
      ((out : List (Oid × Bytes)) × (branch_heads s ≡ some out)
        × Selects
            (λ (e : ℕ × Node). IsBranchHead s.dag e.0 e.1)
            (λ (e : ℕ × Node). (e.1.node, e.1.content.branch))
            (enumerate 0 s.dag.dag)
            out)
      × ((out : List Oid) × (heads s ≡ some out)
          × Selects
              (λ (e : ℕ × Node). ¬ Child s.dag e.0)
              (λ (e : ℕ × Node). e.1.node)
              (enumerate 0 s.dag.dag)
              out)
  unfolding branch_heads heads
  listed_heads =
      let up = drop-IsUp s.dag.dag 0 (omega arith) in
      (
        walk_branch_heads 0 (enumerate 0 s.dag.dag) s.heads up ids-Starts,
        walk_heads 0 (enumerate 0 s.dag.dag) s.heads up ids-Starts,
      )
