-- ===== src/Store/Dag/Up.antt =====
-- The walk of `Dag::traverse_parents` (src/store.rs).
use git_cinnabar.Common.{
  ℕ, suc, ◌≤◌, ◌<◌, ◌≡◌, refl, sym, ◌↔◌, inl, inr, Bool, true, false, List, [], ◌∷◌, some, ltb,
  if◌then◌else◌, length, get_elem?, Bool-cases, ltb→lt, arith,
}
use git_cinnabar.Store.Dag.{DagNode, Bits, parent_offsets, item, walk_up}
use git_cinnabar.Store.Dag.Selects.{Selects, done, keep, leave, Selects-none, IsDown, IsDown-All}
use git_cinnabar.Store.Dag.Marks.{In, IsMarked, bit-cases, Sets, mark-Sets}
use git_cinnabar.Store.Dag.Valid.{IsBelow}

module _ {N T : Type 0} (dag : List (DagNode N T)) (follow : N → T → Bool)
    (Start : ℕ → Type 0) where
  -- The nodes that are reached through the parents of those that are followed.
  pub data Ancestor : ℕ → Type 0 where
    start : {i : ℕ} → Start i → Ancestor i
    parent :
        {i j : ℕ} {n : DagNode N T}
        → Ancestor j
        → get_elem? dag j ≡ some n
        → follow n.node n.content ≡ true
        → In i (parent_offsets n)
        → Ancestor i

  -- The state of the traversal when the nodes from `k` upwards are behind it.
  pub record Marks (k : ℕ) (bits : Bits) (smallest : ℕ) : Type 0 where
    pub size : k ≤ length bits
    pub sound : (i : ℕ) → IsMarked bits i → Ancestor i
    pub starts : (i : ℕ) → Start i → IsMarked bits i
    pub closed :
        (j : ℕ) (n : DagNode N T)
        → k ≤ j
        → get_elem? dag j ≡ some n
        → IsMarked bits j
        → follow n.node n.content ≡ true
        → (i : ℕ) → In i (parent_offsets n)
        → IsMarked bits i
    pub least : (i : ℕ) → IsMarked bits i → smallest ≤ i

  module _ (below : IsBelow dag) where
    pub complete :
        {k : ℕ} {bits : Bits} {smallest : ℕ} {i : ℕ}
        → Marks k bits smallest
        → k ≤ suc i
        → Ancestor i
        → IsMarked bits i
    complete m h (start s) = m.starts _ s
    complete m h (parent {i} {j} {n} a g f p) =
        let lt = below j n g i p in m.closed j n (omega arith) g (complete m (omega arith) a) f i p

    none_below :
        {k : ℕ} {bits : Bits} {smallest : ℕ} {i : ℕ}
        → Marks (suc k) bits smallest
        → k < smallest
        → i ≤ k
        → ¬ Ancestor i
    none_below {i = i} m h l (start s) = let le = m.least i (m.starts _ s) in absurd (omega arith)
    none_below {k = k} m h l (parent {i} {j} {n} a g f p) = elim (Bool-cases (ltb k j)) [
      | inl e ↦
          let lt = ltb→lt k j e in
          let le = m.least i (m.closed j n lt g (complete m (omega arith) a) f i p) in
          absurd (omega arith)
      | inr e ↦ none_below m h (ground arith) a
    ]

    followed : DagNode N T → List ℕ
    followed n = if follow n.node n.content then parent_offsets n else []

    followed-In :
        (n : DagNode N T) (i : ℕ)
        → In i (followed n) ↔ (follow n.node n.content ≡ true) × In i (parent_offsets n)
    unfolding followed
    followed-In n i = elim (Bool-cases (follow n.node n.content)) [
      | inl e ↦ rw (e) (λ m. (refl, m), λ m. m.1)
      | inr e ↦ rw (e) (λ m. absurd m, λ m. cc)
    ]

    mark-Marks :
        (k : ℕ) (n : DagNode N T) (bits bits' : Bits) (smallest least : ℕ)
        → get_elem? dag k ≡ some n
        → Marks (suc k) bits smallest
        → IsMarked bits k
        → Sets (followed n) bits bits'
        → least ≤ smallest
        → ((i : ℕ) → In i (followed n) → least ≤ i)
        → Marks k bits' least
    mark-Marks k n bits bits' smallest least g m here s le each = record {
      size = omega (arith, m.size, s.size);
      sound = λ i h. elim (s.only i h) [
        | inl h ↦ m.sound i h
        | inr p ↦ let (f, p') = (followed-In n i).0 p in parent (m.sound k here) g f p'
      ];
      starts = λ i h. s.old i (m.starts i h);
      closed = λ j x h g' set f i p. elim (Bool-cases (ltb k j)) [
        | inl e ↦
            let lt = ltb→lt k j e in
            elim (s.only j set) [
              | inl set ↦ s.old i (m.closed j x lt g' set f i p)
              | inr q ↦ let before = below k n g j ((followed-In n j).0 q).1 in absurd (omega arith)
            ]
        | inr e ↦
            let here : j ≡ k = ground arith in
            let same : x ≡ n = cc in
            s.new i ((followed-In n i).1 (rw (sym same) f, rw (sym same) p))
      ];
      least = λ i h. elim (s.only i h) [ inl h ↦ omega (arith, m.least i h) | inr p ↦ each i p ];
    }

    skip-Marks :
        (k : ℕ) (bits : Bits) (smallest : ℕ)
        → Marks (suc k) bits smallest
        → get_elem? bits k ≡ some false
        → Marks k bits smallest
    skip-Marks k bits smallest m clear = record {
      size = omega (arith, m.size);
      sound = m.sound;
      starts = m.starts;
      closed = λ j x h g set f i p. elim (Bool-cases (ltb k j)) [
        | inl e ↦ m.closed j x (ltb→lt k j e) g set f i p
        | inr e ↦
            let here : j ≡ k = ground arith in let set' : IsMarked bits k = rw (here) at set in cc
      ];
      least = m.least;
    }

    not_here :
        (k : ℕ) (bits : Bits) (smallest : ℕ)
        → Marks (suc k) bits smallest
        → get_elem? bits k ≡ some false
        → ¬ Ancestor k
    not_here k bits smallest m clear a = let set = complete m (omega arith) a in cc

    pub walk_up-Selects :
        (k : ℕ) (es : List (ℕ × DagNode N T)) (bits : Bits) (smallest : ℕ)
        → IsDown dag k es
        → Marks k bits smallest
        → (out : List (N × T)) × (walk_up follow es bits smallest ≡ some out)
          × Selects
              (λ (e : ℕ × DagNode N T). Ancestor e.0)
              (λ (e : ℕ × DagNode N T). item e.1)
              es
              out
    unfolding walk_up followed
    walk_up-Selects k [] bits smallest d m = ([], refl, done)
    walk_up-Selects k ((idx, n) ∷ es) bits smallest (p, g, d) m =
        let m' : Marks (suc idx) bits smallest = rw (p) at m in
        let size = m'.size in
        elim (bit-cases bits idx (omega arith)) [
          | inl here ↦
              let inside : (i : ℕ) → In i (followed n) → i < length bits =
                λ i q. let before = below idx n g i ((followed-In n i).0 q).1 in omega arith in
              let (bits', least, e, s, le, each) = mark-Sets (followed n) bits smallest inside in
              let (out, w, sel) =
                walk_up-Selects idx es bits' least d
                  (mark-Marks idx n bits bits' smallest least g m' here s le each) in
              (item n ∷ out, rw (walk_up, here, e, w), keep (m'.sound idx here) sel)
          | inr clear ↦ elim (Bool-cases (ltb idx smallest)) [
            | inl e ↦ (
              [],
              rw (walk_up, clear) (ground arith),
              leave (none_below m' (ltb→lt idx smallest e) (omega arith)) (
                  Selects-none _ _ es (
                    IsDown-All dag (λ i. ¬ Ancestor i) idx es d
                      (λ i lt. none_below m' (ltb→lt idx smallest e) (omega arith)))),
            )
            | inr e ↦
                let (out, w, sel) =
                  walk_up-Selects idx es bits smallest d (skip-Marks idx bits smallest m' clear) in
                (
                  out,
                  rw (walk_up, clear) (ground (arith, w)),
                  leave (not_here idx bits smallest m' clear) sel,
                )
          ]
        ]
