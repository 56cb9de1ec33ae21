-- ===== src/Store/Dag/Heads.antt =====
-- `Dag::heads` (src/store.rs).
use git_cinnabar.Common.{
  ℕ, suc, ◌≤◌, ◌<◌, ◌≡◌, refl, inl, inr, Bool, false, List, [], ◌∷◌, some, ltb, length, get_elem?,
  set, Bool-cases, ltb→lt, arith, reverse, take-length,
}
use git_cinnabar.Store.Dag.{
  DagNode, Dag, Bits, unset, parent_offsets, item, walk_heads, heads, enumerate,
}
use git_cinnabar.Store.Dag.Selects.{Selects, done, keep, leave, IsDown, enumerate-IsDown}
use git_cinnabar.Store.Dag.Marks.{
  In, IsMarked, bit-cases, Sets, mark-Sets, get_elem?-lt, length-unset, unset-clear,
}
use git_cinnabar.Store.Dag.Valid.{IsBelow, IsValid}
use git_cinnabar.Store.Dag.Ends.{IsInteresting, IsParent, IsHead, interesting_at}

module _ {N T : Type 0} (dag : List (DagNode N T)) (interesting : N → T → Bool) where
  module _ (below : IsBelow dag) where
    -- The parents of the interesting nodes from `k` upwards are marked.
    record Marked (k : ℕ) (bits : Bits) : Type 0 where
      size : k ≤ length bits
      sound :
          (i : ℕ)
          → IsMarked bits i
          → (j : ℕ) × IsInteresting dag interesting j × IsParent dag interesting i j
      full :
          (i j : ℕ)
          → k ≤ j
          → IsInteresting dag interesting j
          → IsParent dag interesting i j
          → IsMarked bits i

    skip-Marked :
        (k : ℕ) (n : DagNode N T) (bits : Bits)
        → get_elem? dag k ≡ some n
        → interesting n.node n.content ≡ false
        → Marked (suc k) bits
        → Marked k bits
    skip-Marked k n bits g f m = record {
      size = omega (arith, m.size);
      sound = m.sound;
      full = λ i j le h p. elim (Bool-cases (ltb k j)) [
        | inl b ↦ m.full i j (ltb→lt k j b) h p
        | inr b ↦
            let here : j ≡ k = ground arith in
            let t = interesting_at dag interesting k n g (rw (here) at h) in cc
      ];
    }

    mark-Marked :
        (k : ℕ) (n : DagNode N T) (bits bits' : Bits)
        → get_elem? dag k ≡ some n
        → IsInteresting dag interesting k
        → Marked (suc k) bits
        → Sets (parent_offsets n) bits bits'
        → Marked k bits'
    mark-Marked k n bits bits' g h m s = record {
      size = omega (arith, m.size, s.size);
      sound = λ i set. elim (s.only i set) [
        | inl set ↦ m.sound i set
        | inr p ↦ (k, h, record { at = n; here = g; parent = p })
      ];
      full = λ i j le h' p. elim (Bool-cases (ltb k j)) [
        | inl b ↦ s.old i (m.full i j (ltb→lt k j b) h' p)
        | inr b ↦
            let here : j ≡ k = ground arith in
            let g' : get_elem? dag k ≡ some p.at = rw (here) at p.here in
            let same : p.at ≡ n = cc in s.new i (rw (same) at p.parent)
      ];
    }

    walk_heads-Selects :
        (k : ℕ) (es : List (ℕ × DagNode N T)) (bits : Bits)
        → IsDown dag k es
        → Marked k bits
        → (out : List (N × T)) × (walk_heads interesting es bits ≡ some out)
          × Selects
              (λ (e : ℕ × DagNode N T). IsHead dag interesting e.0)
              (λ (e : ℕ × DagNode N T). item e.1)
              es
              out
    unfolding walk_heads
    walk_heads-Selects k [] bits d m = ([], refl, done)
    walk_heads-Selects k ((idx, n) ∷ es) bits (p, g, d) m =
        let m : Marked (suc idx) bits = rw (p) at m in
        let size = m.size in
        elim (Bool-cases (interesting n.node n.content)) [
          | inl f ↦
              let h : IsInteresting dag interesting idx = record { at = n; here = g; is = f } in
              let inside : (i : ℕ) → In i (parent_offsets n) → i < length bits =
                λ i q. let before = below idx n g i q in omega arith in
              let (bits', least, e, s, _, _) = mark-Sets (parent_offsets n) bits 0 inside in
              let m' = mark-Marked idx n bits bits' g h m s in
              let (out, w, sel) = walk_heads-Selects idx es bits' d m' in
              let size' = s.size in
              elim (bit-cases bits' idx (omega arith)) [
                | inl set ↦
                    let (j, hj, pj) = m'.sound idx set in
                    (out, rw (walk_heads, f, e, set, w), leave (λ head. head.1 j hj pj) sel)
                | inr clear ↦ (
                  item n ∷ out,
                  rw (walk_heads, f, e, clear, w),
                  keep
                      (
                        h,
                        λ j hj pj.
                            let lt = below j pj.at pj.here idx pj.parent in
                            let set = m'.full idx j (omega arith) hj pj in cc,
                      )
                      sel,
                )
              ]
          | inr f ↦
              let (out, w, sel) = walk_heads-Selects idx es bits d (skip-Marked idx n bits g f m) in
              (
                out,
                rw (walk_heads, f, w),
                leave (λ head. let t = interesting_at dag interesting idx n g head.0 in cc) sel,
              )
        ]

-- In a valid graph, `heads` does not panic, and gives exactly the interesting nodes that are no
-- parent of an interesting one, each once, the youngest first.
pub heads-Selects :
    {N T : Type 0} (eq : N → N → Bool) (d : Dag N T) (interesting : N → T → Bool)
    → IsValid eq d
    → (out : List (N × T)) × (heads interesting d ≡ some out)
      × Selects
          (λ (e : ℕ × DagNode N T). IsHead d.dag interesting e.0)
          (λ (e : ℕ × DagNode N T). item e.1)
          (reverse (enumerate 0 d.dag))
          out
unfolding heads
heads-Selects eq d interesting v =
    let size = length-unset (length d.ids) in
    let sized = v.sized in
    let down = enumerate-IsDown d.dag (length d.dag) (omega arith) in
    walk_heads-Selects d.dag interesting v.below (length d.dag) (reverse (enumerate 0 d.dag))
      (unset (length d.ids)) (rw (take-length d.dag) at down)
      (record {
        size = omega arith;
        sound = λ i set. absurd (unset-clear (length d.ids) i set);
        full = λ i j le h p. let lt = get_elem?-lt d.dag j h.here in absurd (omega arith);
      })
