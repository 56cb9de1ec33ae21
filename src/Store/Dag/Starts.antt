-- ===== src/Store/Dag/Starts.antt =====
-- A list of ids that a walk over the nodes goes through at the same time (src/store.rs).
use git_cinnabar.Common.{
  ℕ, suc, ◌-◌, ◌≤◌, ◌<◌, ◌≡◌, refl, ◌⊎◌, inl, inr, true, false, List, [], ◌∷◌, ◌==◌, drop,
  Bool-cases, arith,
}
use git_cinnabar.Store.Dag.{DagNodeId, is_next}
use git_cinnabar.Store.Dag.Marks.{In}
use git_cinnabar.Store.Dag.Sorted.{IsStrict, All-In}

module _ (Start : ℕ → Type 0) where
  -- The ids that are to come, from the position `k` upwards.
  pub record Starts (k : ℕ) (starts : List DagNodeId) : Type 0 where
    pub strict : IsStrict starts
    pub sound :
        (id : DagNodeId) → In id starts → (id ≡ suc (id - 1)) × (k ≤ id - 1) × Start (id - 1)
    pub complete : (i : ℕ) → Start i → k ≤ i → In (suc i) starts

  pub next-cases :
      (k : ℕ) (starts : List DagNodeId)
      → Starts k starts
      → ((is_next k starts ≡ true) × Start k × Starts (suc k) (drop 1 starts))
        ⊎ ((is_next k starts ≡ false) × (¬ Start k) × Starts (suc k) starts)
  next-cases k [] s = inr (
    refl,
    λ h. s.complete k h (omega arith),
    record {
      strict = tt;
      sound = λ id m. absurd m;
      complete = λ i h le. s.complete i h (omega arith);
    },
  )
  next-cases k (id ∷ starts) s =
      let (pos, le, h) = s.sound id (inl refl) in
      let above = s.strict.0 in
      elim (Bool-cases (k == id - 1)) [
        | inl e ↦
            let here : id - 1 ≡ k = ground arith in
            inl (
              e,
              rw (here) at h,
              record {
                strict = s.strict.1;
                sound = λ id' m.
                    let (pos', le', h') = s.sound id' (inr m) in
                    let lt = All-In (λ y. id < y) starts above id' m in (pos', omega arith, h');
                complete = λ i h le. elim (s.complete i h (omega arith)) [
                  | inl same ↦ absurd (omega arith)
                  | inr m ↦ m
                ];
              },
            )
        | inr e ↦
            let ahead : k < id - 1 = ground arith in
            inr (
              e,
              λ h. elim (s.complete k h (omega arith)) [
                | inl same ↦ absurd (omega arith)
                | inr m ↦
                    let lt = All-In (λ y. id < y) starts above (suc k) m in absurd (omega arith)
              ],
              record {
                strict = s.strict;
                sound = λ id' m.
                    let (pos', le', h') = s.sound id' m in
                    let le_id : id ≤ id' = elim m [
                      | inl same ↦ omega arith
                      | inr m ↦ let lt = All-In (λ y. id < y) starts above id' m in omega arith
                    ] in
                    (pos', omega arith, h');
                complete = λ i h le. s.complete i h (omega arith);
              },
            )
      ]
