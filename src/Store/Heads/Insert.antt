-- ===== src/Store/Heads/Insert.antt =====
-- The insertion into the set of heads (src/store.rs).
use git_cinnabar.Common.{
  ◌<◌, ◌≡◌, ◌⊎◌, ◌↔◌, inl, inr, List, [], ◌∷◌, All, All-map, ◌==◌, ltb, ltb→lt, Bool-cases, arith,
}
use git_cinnabar.Store.Dag.{DagNodeId}
use git_cinnabar.Store.Dag.Marks.{In}
use git_cinnabar.Store.Dag.Sorted.{IsStrict}
use git_cinnabar.Store.Heads.{set_insert}

pub set_insert-In :
    (id : DagNodeId) (xs : List DagNodeId) (y : DagNodeId)
    → In y (set_insert id xs) ↔ ((y ≡ id) ⊎ In y xs)
unfolding set_insert
set_insert-In id [] y = (λ m. m, λ m. m)
set_insert-In id (x ∷ xs) y = ground (arith, set_insert-In id xs y)

set_insert-All :
    (x id : DagNodeId) (xs : List DagNodeId)
    → x < id
    → All (λ z. x < z) xs
    → All (λ z. x < z) (set_insert id xs)
unfolding set_insert
set_insert-All x id [] h a = (h, tt)
set_insert-All x id (y ∷ ys) h (p, a) = elim (Bool-cases (ltb id y)) [
  | inl e ↦ rw (e) (h, (p, a))
  | inr e ↦ elim (Bool-cases (id == y)) [
    | inl e' ↦ rw (e, e') (p, a)
    | inr e' ↦ rw (e, e') (p, set_insert-All x id ys h a)
  ]
]

pub set_insert-IsStrict :
    (id : DagNodeId) (xs : List DagNodeId) → IsStrict xs → IsStrict (set_insert id xs)
unfolding set_insert
set_insert-IsStrict id [] s = (tt, tt)
set_insert-IsStrict id (x ∷ xs) (a, s) = elim (Bool-cases (ltb id x)) [
  | inl e ↦
      let lt = ltb→lt id x e in
      rw (e) ((lt, All-map (λ z. x < z) (λ z. id < z) (λ z h. omega arith) xs a), (a, s))
  | inr e ↦ elim (Bool-cases (id == x)) [
    | inl e' ↦ rw (e, e') (a, s)
    | inr e' ↦ rw (e, e') (set_insert-All x id xs (ground arith) a, set_insert-IsStrict id xs s)
  ]
]
