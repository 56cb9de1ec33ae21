-- ===== src/Store/Heads/Remove.antt =====
-- The removal from the set of heads (src/store.rs).
use git_cinnabar.Common.{◌<◌, ◌≢◌, ◌↔◌, inl, inr, List, [], ◌∷◌, All, ◌==◌, Bool-cases, arith}
use git_cinnabar.Store.Dag.{DagNodeId}
use git_cinnabar.Store.Dag.Marks.{In}
use git_cinnabar.Store.Dag.Sorted.{IsStrict, All-In}
use git_cinnabar.Store.Heads.{set_remove}

pub set_remove-In :
    (id : DagNodeId) (xs : List DagNodeId) (y : DagNodeId)
    → IsStrict xs
    → In y (set_remove id xs) ↔ In y xs × (y ≢ id)
unfolding set_remove
set_remove-In id [] y s = (λ m. absurd m, λ m. absurd m.0)
set_remove-In id (x ∷ xs) y (a, s) = elim (Bool-cases (x == id)) [
  | inl e ↦ rw (e) (
    λ m. let lt = All-In (λ z. x < z) xs a y m in (inr m, λ same. ground arith),
    λ (m, ne). elim m [ inl same ↦ absurd (ne (ground arith)) | inr m ↦ m ],
  )
  | inr e ↦
      let ih = set_remove-In id xs y s in
      rw (e) (
        λ m. elim m [
          | inl same ↦ (inl same, λ other. ground arith)
          | inr m ↦ (inr (ih.0 m).0, (ih.0 m).1)
        ],
        λ (m, ne). elim m [ inl same ↦ inl same | inr m ↦ inr (ih.1 (m, ne)) ],
      )
]

set_remove-All :
    (P : DagNodeId → Type 0) (id : DagNodeId) (xs : List DagNodeId)
    → All P xs
    → All P (set_remove id xs)
unfolding set_remove
set_remove-All P id [] a = tt
set_remove-All P id (x ∷ xs) (p, a) = elim (Bool-cases (x == id)) [
  | inl e ↦ rw (e) a
  | inr e ↦ rw (e) (p, set_remove-All P id xs a)
]

pub set_remove-IsStrict :
    (id : DagNodeId) (xs : List DagNodeId) → IsStrict xs → IsStrict (set_remove id xs)
unfolding set_remove
set_remove-IsStrict id [] s = tt
set_remove-IsStrict id (x ∷ xs) (a, s) = elim (Bool-cases (x == id)) [
  | inl e ↦ rw (e) s
  | inr e ↦ rw (e) (set_remove-All (λ z. x < z) id xs a, set_remove-IsStrict id xs s)
]
