-- ===== src/Store/Dag/Roots.antt =====
-- `Dag::roots` (src/store.rs).
use git_cinnabar.Common.{
  ℕ, suc, ◌<◌, ◌≡◌, refl, sym, ◌⊎◌, inl, inr, Bool, true, false, List, [], ◌∷◌, some, ltb, ◌==◌,
  length, get_elem?, set, Bool-cases, ltb→lt, arith,
}
use git_cinnabar.Store.Dag.{
  DagNode, Dag, Bits, unset, filter_seen, parent_offsets, item, walk_roots, roots, enumerate,
}
use git_cinnabar.Store.Dag.Selects.{Selects, done, keep, leave, IsUp, drop-IsUp}
use git_cinnabar.Store.Dag.Marks.{
  In, IsMarked, bit-cases, Sets, set_bit-Sets, get_elem?-lt, length-unset, unset-clear,
}
use git_cinnabar.Store.Dag.Valid.{IsBelow, IsValid}
use git_cinnabar.Store.Dag.Ends.{IsInteresting, IsRoot, interesting_at}

module _ {N T : Type 0} (dag : List (DagNode N T)) (interesting : N → T → Bool) where
  module _ (below : IsBelow dag) where
    -- The interesting nodes before `k` have been seen.
    record Seen (k : ℕ) (seen : Bits) : Type 0 where
      size : length seen ≡ length dag
      sound : (i : ℕ) → IsMarked seen i → IsInteresting dag interesting i
      full : (i : ℕ) → i < k → IsInteresting dag interesting i → IsMarked seen i

    -- Some parent has been seen, or none.
    filter_seen-cases :
        (seen : Bits) (ps : List ℕ)
        → ((p : ℕ) → In p ps → p < length seen)
        → (qs : List ℕ) × (filter_seen seen ps ≡ some qs)
          × (((length qs == 0) ≡ true) × ((p : ℕ) → In p ps → ¬ IsMarked seen p)
              ⊎ ((length qs == 0) ≡ false) × ((p : ℕ) × In p ps × IsMarked seen p))
    unfolding filter_seen
    filter_seen-cases seen [] h = ([], refl, inl (refl, λ p m. absurd m))
    filter_seen-cases seen (p ∷ ps) h =
        let (qs, e, c) = filter_seen-cases seen ps (λ q m. h q (inr m)) in
        elim (bit-cases seen p (h p (inl refl))) [
          | inl set ↦ (p ∷ qs, rw (filter_seen, set, e), inr (ground arith, (p, inl refl, set)))
          | inr clear ↦ (
            qs,
            rw (filter_seen, clear, e),
            elim c [
              | inl (z, n) ↦ inl (
                z,
                λ q m set. elim m [
                  | inl same ↦ let set' : IsMarked seen p = rw (same) at set in cc
                  | inr m ↦ n q m set
                ],
              )
              | inr (z, (q, m, set)) ↦ inr (z, (q, inr m, set))
            ],
          )
        ]

    set-Seen :
        (k : ℕ) (bits bits' : Bits)
        → IsInteresting dag interesting k
        → Seen k bits
        → Sets (k ∷ []) bits bits'
        → Seen (suc k) bits'
    set-Seen k bits bits' h m s = record {
      size = omega (arith, m.size, s.size);
      sound = λ i set. elim (s.only i set) [
        | inl set ↦ m.sound i set
        | inr (inl same) ↦ rw (same) h
        | inr (inr none_left) ↦ absurd none_left
      ];
      full = λ i lt h'. elim (Bool-cases (ltb i k)) [
        | inl b ↦ s.old i (m.full i (ltb→lt i k b) h')
        | inr b ↦ s.new i (inl (ground arith))
      ];
    }

    keep-Seen :
        (k : ℕ) (n : DagNode N T) (bits : Bits)
        → get_elem? dag k ≡ some n
        → interesting n.node n.content ≡ false
        → Seen k bits
        → Seen (suc k) bits
    keep-Seen k n bits g f m = record {
      size = m.size;
      sound = m.sound;
      full = λ i lt h. elim (Bool-cases (ltb i k)) [
        | inl b ↦ m.full i (ltb→lt i k b) h
        | inr b ↦
            let here : i ≡ k = ground arith in
            let t = interesting_at dag interesting k n g (rw (here) at h) in cc
      ];
    }

    walk_roots-Selects :
        (k : ℕ) (es : List (ℕ × DagNode N T)) (bits : Bits)
        → IsUp dag k es
        → Seen k bits
        → (out : List (N × T)) × (walk_roots interesting es bits ≡ some out)
          × Selects
              (λ (e : ℕ × DagNode N T). IsRoot dag interesting e.0)
              (λ (e : ℕ × DagNode N T). item e.1)
              es
              out
    unfolding walk_roots
    walk_roots-Selects k [] bits u m = ([], refl, done)
    walk_roots-Selects k ((idx, n) ∷ es) bits (p, g, u) m =
        let q : k ≡ idx = sym p in
        let m : Seen idx bits = rw (q) at m in
        let u : IsUp dag (suc idx) es = rw (q) at u in
        let size = m.size in
        let in_dag = get_elem?-lt dag idx g in
        elim (Bool-cases (interesting n.node n.content)) [
          | inl f ↦
              let h : IsInteresting dag interesting idx = record { at = n; here = g; is = f } in
              let (e, s) = set_bit-Sets idx bits (omega arith) in
              let m' = set-Seen idx bits _ h m s in
              let inside : (i : ℕ) → In i (parent_offsets n) → i < length (set bits idx true) =
                λ i q. let before = below idx n g i q in let size' = s.size in omega arith in
              let (ps, e', c) = filter_seen-cases (set bits idx true) (parent_offsets n) inside in
              let (out, w, sel) = walk_roots-Selects (suc idx) es (set bits idx true) u m' in
              elim c [
                | inl (z, none_seen) ↦ (
                  item n ∷ out,
                  rw (walk_roots, f, e, e', w, z),
                  keep
                      (
                        h,
                        λ j hj pj.
                            let same : pj.at ≡ n = ground (arith, pj.here) in
                            let par : In j (parent_offsets n) = rw (same) at pj.parent in
                            let before = below idx n g j par in
                            none_seen j par (m'.full j (omega arith) hj),
                      )
                      sel,
                )
                | inr (z, (j, par, set)) ↦ (
                  out,
                  rw (walk_roots, f, e, e', w, z),
                  leave
                      (λ root.
                        root.1 j (m'.sound j set) (record { at = n; here = g; parent = par }))
                      sel,
                )
              ]
          | inr f ↦
              let (out, w, sel) =
                walk_roots-Selects (suc idx) es bits u (keep-Seen idx n bits g f m) in
              (
                out,
                rw (walk_roots, f, w),
                leave (λ root. let t = interesting_at dag interesting idx n g root.0 in cc) sel,
              )
        ]

-- In a valid graph, `roots` does not panic, and gives exactly the interesting nodes that have no
-- interesting parent, each once, the oldest first.
pub roots-Selects :
    {N T : Type 0} (eq : N → N → Bool) (d : Dag N T) (interesting : N → T → Bool)
    → IsValid eq d
    → (out : List (N × T)) × (roots interesting d ≡ some out)
      × Selects
          (λ (e : ℕ × DagNode N T). IsRoot d.dag interesting e.0)
          (λ (e : ℕ × DagNode N T). item e.1)
          (enumerate 0 d.dag)
          out
unfolding roots
roots-Selects eq d interesting v =
    let size = length-unset (length d.ids) in
    let sized = v.sized in
    walk_roots-Selects d.dag interesting v.below 0 (enumerate 0 d.dag) (unset (length d.ids))
      (drop-IsUp d.dag 0 (omega arith))
      (record {
        size = omega arith;
        sound = λ i set. absurd (unset-clear (length d.ids) i set);
        full = λ i lt h. absurd (omega arith);
      })
