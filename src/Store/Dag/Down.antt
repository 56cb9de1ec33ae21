-- ===== src/Store/Dag/Down.antt =====
-- The walk of `Dag::traverse_children` (src/store.rs).
use git_cinnabar.Common.{
  ℕ, suc, ◌+◌, ◌-◌, ◌≤◌, ◌<◌, ◌≡◌, refl, sym, ◌⊎◌, inl, inr, Bool, true, false, List, [], ◌∷◌, some,
  ltb, leb, leb→le, if◌then◌else◌, length, get_elem?, set, drop, Bool-cases, ltb→lt, arith, ◌>>=◌,
}
use git_cinnabar.Store.Dag.{
  DagNode, DagNodeId, Bits, set_bit, any_seen, parent_offsets, item, walk_down,
}
use git_cinnabar.Store.Dag.Selects.{Selects, done, keep, leave, IsUp}
use git_cinnabar.Store.Dag.Marks.{In, IsMarked, bit-cases, set_bit-Sets, get_elem?-lt}
use git_cinnabar.Store.Dag.Starts.{Starts, next-cases}
use git_cinnabar.Store.Dag.Valid.{IsBelow}

-- One of the parents from `from` upwards has been seen, or none.
any_seen-cases :
    (from : ℕ) (seen : Bits) (ps : List ℕ)
    → ((p : ℕ) → In p ps → p - from < length seen)
    → ((any_seen from seen ps ≡ some true)
        × ((p : ℕ) × In p ps × (from ≤ p) × IsMarked seen (p - from)))
      ⊎ ((any_seen from seen ps ≡ some false)
          × ((p : ℕ) → In p ps → from ≤ p → ¬ IsMarked seen (p - from)))
unfolding any_seen
any_seen-cases from seen [] h = inr (refl, λ p m. absurd m)
any_seen-cases from seen (p ∷ ps) h = elim (Bool-cases (leb from p)) [
  | inl e ↦ elim (bit-cases seen (p - from) (h p (inl refl))) [
    | inl here ↦ inl (rw (any_seen, e, here), (p, inl refl, leb→le from p e, here))
    | inr clear ↦ elim (any_seen-cases from seen ps (λ q m. h q (inr m))) [
      | inl (a, (q, m, le, s)) ↦ inl (rw (any_seen, e, clear) a, (q, inr m, le, s))
      | inr (a, n) ↦ inr (
        rw (any_seen, e, clear) a,
        λ q m le s. elim m [
          | inl same ↦ let s' : IsMarked seen (p - from) = rw (same) at s in cc
          | inr m ↦ n q m le s
        ],
      )
    ]
  ]
  | inr e ↦ elim (any_seen-cases from seen ps (λ q m. h q (inr m))) [
    | inl (a, (q, m, le, s)) ↦ inl (rw (any_seen, e) a, (q, inr m, le, s))
    | inr (a, n) ↦
        inr
          (rw (any_seen, e) a, λ q m le s. elim m [ inl same ↦ ground arith | inr m ↦ n q m le s ])
  ]
]

module _ {N T : Type 0} (dag : List (DagNode N T)) (follow : N → T → Bool)
    (Start : ℕ → Type 0) where
  -- The nodes that are reached through the children of those that are followed.
  pub data Descendant : ℕ → Type 0 where
    start : {i : ℕ} → Start i → Descendant i
    child :
        {i j : ℕ} {n x : DagNode N T}
        → Descendant j
        → get_elem? dag j ≡ some n
        → follow n.node n.content ≡ true
        → get_elem? dag i ≡ some x
        → In j (parent_offsets x)
        → Descendant i

  module _ (below : IsBelow dag) (from : ℕ) (floor : (i : ℕ) → Start i → from ≤ i) where
    pub from-le : {i : ℕ} → Descendant i → from ≤ i
    from-le (start s) = floor _ s
    from-le (child {i} {j} {n} {x} a g f g' p) =
        let lt = below i x g' j p in omega (arith, from-le a)

    -- What has been seen of the nodes before `k`.
    pub record Seen (k : ℕ) (seen : Bits) : Type 0 where
      pub size : from + length seen ≡ length dag
      pub sound :
          (j : ℕ)
          → from ≤ j
          → IsMarked seen (j - from)
          → (n : DagNode N T) × (get_elem? dag j ≡ some n)
            × (follow n.node n.content ≡ true)
            × Descendant j
      pub complete :
          (j : ℕ) (n : DagNode N T)
          → j < k
          → Descendant j
          → get_elem? dag j ≡ some n
          → follow n.node n.content ≡ true
          → IsMarked seen (j - from)

    not_child :
        (k : ℕ) (n : DagNode N T) (seen : Bits)
        → get_elem? dag k ≡ some n
        → Seen k seen
        → ¬ Start k
        → ((p : ℕ) → In p (parent_offsets n) → from ≤ p → ¬ IsMarked seen (p - from))
        → ¬ Descendant k
    not_child k n seen g s no_start none_seen (start h) = no_start h
    not_child k n seen g s no_start none_seen (child {i} {j} {n = y} {x} a g' f g2 p) =
        let same : x ≡ n = cc in
        let p' : In j (parent_offsets n) = rw (sym same) p in
        let lt = below k n g j p' in none_seen j p' (from-le a) (s.complete j y lt a g' f)

    reach-cases :
        (k : ℕ) (n : DagNode N T) (seen : Bits)
        → from ≤ k
        → get_elem? dag k ≡ some n
        → Seen k seen
        → ¬ Start k
        → ((any_seen from seen (parent_offsets n) ≡ some true) × Descendant k)
          ⊎ ((any_seen from seen (parent_offsets n) ≡ some false) × (¬ Descendant k))
    reach-cases k n seen le g s no_start =
        let size = s.size in
        let in_dag = get_elem?-lt dag k g in
        let inside : (p : ℕ) → In p (parent_offsets n) → p - from < length seen =
          λ p m. let lt = below k n g p m in omega arith in
        elim (any_seen-cases from seen (parent_offsets n) inside) [
          | inl (a, (p, m, le', set)) ↦
              let (x, g', f, d) = s.sound p le' set in inl (a, child d g' f g m)
          | inr (a, none_seen) ↦ inr (a, not_child k n seen g s no_start none_seen)
        ]

    followed-Seen :
        (k : ℕ) (n : DagNode N T) (seen : Bits)
        → from ≤ k
        → get_elem? dag k ≡ some n
        → Seen k seen
        → Descendant k
        → follow n.node n.content ≡ true
        → (set_bit (k - from) seen ≡ some (set seen (k - from) true))
          × Seen (suc k) (set seen (k - from) true)
    followed-Seen k n seen le g s d f =
        let size = s.size in
        let in_dag = get_elem?-lt dag k g in
        let (e, t) = set_bit-Sets (k - from) seen (omega arith) in
        (
          e,
          record {
            size = omega (arith, t.size);
            sound = λ j le' set. elim (t.only (j - from) set) [
              | inl set ↦ s.sound j le' set
              | inr (inl same) ↦
                  let here : k ≡ j = omega arith in (n, rw (here) at g, f, rw (here) at d)
              | inr (inr m) ↦ absurd m
            ];
            complete = λ j x lt d' g' f'. elim (Bool-cases (ltb j k)) [
              | inl b ↦ t.old (j - from) (s.complete j x (ltb→lt j k b) d' g' f')
              | inr b ↦ let here : j ≡ k = ground arith in t.new (j - from) (inl (rw (here) refl))
            ];
          },
        )

    kept-Seen :
        (k : ℕ) (n : DagNode N T) (seen : Bits)
        → get_elem? dag k ≡ some n
        → Seen k seen
        → ¬ (Descendant k × (follow n.node n.content ≡ true))
        → Seen (suc k) seen
    kept-Seen k n seen g s no' = record {
      size = s.size;
      sound = s.sound;
      complete = λ j x lt d g' f. elim (Bool-cases (ltb j k)) [
        | inl b ↦ s.complete j x (ltb→lt j k b) d g' f
        | inr b ↦
            let here : j ≡ k = ground arith in
            let g2 : get_elem? dag k ≡ some x = rw (here) at g' in
            let same : x ≡ n = cc in absurd (no' (rw (here) at d, rw (same) at f))
      ];
    }

    -- A child that is given, and what comes behind it.
    given :
        (k : ℕ) (n : DagNode N T) (es : List (ℕ × DagNode N T)) (seen : Bits)
        (starts : List DagNodeId)
        → from ≤ k
        → get_elem? dag k ≡ some n
        → Seen k seen
        → Descendant k
        → ((seen' : Bits)
            → Seen (suc k) seen'
            → (out : List (N × T)) × (walk_down from follow es seen' starts ≡ some out)
              × Selects
                  (λ (e : ℕ × DagNode N T). Descendant e.0)
                  (λ (e : ℕ × DagNode N T). item e.1)
                  es
                  out)
        → (out : List (N × T)) × (((if follow n.node n.content
                then set_bit (k - from) seen
                else some seen)
              >>= λ seen'. walk_down from follow es seen' starts >>= λ rest. some (item n ∷ rest))
            ≡ some out)
          × Selects
              (λ (e : ℕ × DagNode N T). Descendant e.0)
              (λ (e : ℕ × DagNode N T). item e.1)
              ((k, n) ∷ es)
              out
    given k n es seen starts le g s d rec = elim (Bool-cases (follow n.node n.content)) [
      | inl f ↦
          let (e, s') = followed-Seen k n seen le g s d f in
          let (out, w, sel) = rec (set seen (k - from) true) s' in
          (item n ∷ out, rw (f, e, w) refl, keep d sel)
      | inr f ↦
          let (out, w, sel) = rec seen (kept-Seen k n seen g s (λ h. cc)) in
          (item n ∷ out, rw (f, w) refl, keep d sel)
    ]

    pub walk_down-Selects :
        (k : ℕ) (es : List (ℕ × DagNode N T)) (seen : Bits) (starts : List DagNodeId)
        → from ≤ k
        → IsUp dag k es
        → Seen k seen
        → Starts Start k starts
        → (out : List (N × T)) × (walk_down from follow es seen starts ≡ some out)
          × Selects
              (λ (e : ℕ × DagNode N T). Descendant e.0)
              (λ (e : ℕ × DagNode N T). item e.1)
              es
              out
    unfolding walk_down
    walk_down-Selects k [] seen starts le u s t = ([], refl, done)
    walk_down-Selects k ((idx, n) ∷ es) seen starts le (p, g, u) s t =
        let q : k ≡ idx = sym p in
        let s : Seen idx seen = rw (q) at s in
        let t : Starts Start idx starts = rw (q) at t in
        let u : IsUp dag (suc idx) es = rw (q) at u in
        let le : from ≤ idx = omega arith in
        let rec =
          λ (seen' : Bits) (starts' : List DagNodeId) (s' : Seen (suc idx) seen')
              (t' : Starts Start (suc idx) starts').
            walk_down-Selects (suc idx) es seen' starts' (omega arith) u s' t' in
        elim (next-cases Start idx starts t) [
          | inl (e, st, t') ↦
              let (out, w, sel) =
                given idx n es seen (drop 1 starts) le g s (start st)
                  (λ seen' s'. rec seen' _ s' t') in
              (out, rw (walk_down, e, e) w, sel)
          | inr (e, st, t') ↦ elim (reach-cases idx n seen le g s st) [
            | inl (a, d) ↦
                let (out, w, sel) =
                  given idx n es seen starts le g s d (λ seen' s'. rec seen' _ s' t') in
                (out, rw (walk_down, e, a, e) w, sel)
            | inr (a, d) ↦
                let (out, w, sel) = rec seen starts (kept-Seen idx n seen g s (λ h. d h.0)) t' in
                (out, rw (walk_down, e, a, e) w, leave d sel)
          ]
        ]
