-- ===== src/Store/Metadata/Extra/Laws.antt =====
-- The map of `ChangesetExtra` (src/store.rs).
use git_cinnabar.Common.{
  ◌≡◌, refl, sym, ◌∙◌, inl, inr, Bool, true, false, [], ◌∷◌, Bytes, Option, none, some, All,
  All-map, if◌then◌else◌, bytes_eq, bytes_eq_iff, cmp, cmp-eq, cmp-gt, cmp_trans, cmp_refl,
  Ordering, Ordering-cases, Bool-cases, arith,
}
use git_cinnabar.Store.Metadata.Extra.{ChangesetExtra, get, set, unset}

-- The keys are in strict order.
abbrev pub Above : Bytes → Bytes × Bytes → Type 0
Above k e = cmp k e.0 ≡ Ordering.lt

abbrev pub IsOrdered : ChangesetExtra → Type 0
IsOrdered [] = Unit
IsOrdered (e ∷ rest) = All (Above e.0) rest × IsOrdered rest

bytes_eq_self : (a b : Bytes) → cmp a b ≡ Ordering.lt → bytes_eq a b ≡ false
bytes_eq_self a b h = elim (Bool-cases (bytes_eq a b)) [
  | inr e ↦ e
  | inl e ↦
      let same = (bytes_eq_iff a b).0 e in
      let here : cmp b b ≡ Ordering.lt = rw (same) at h in let self = cmp_refl b in cc
]

get-Above : (name : Bytes) (e : ChangesetExtra) → All (Above name) e → get name e ≡ none
unfolding get
get-Above name [] h = refl
get-Above name ((k, v) ∷ rest) (lt, h) = elim (Bool-cases (bytes_eq k name)) [
  | inl e ↦
      let same = (bytes_eq_iff k name).0 e in
      let here : cmp name name ≡ Ordering.lt = rw (same) at lt in let self = cmp_refl name in cc
  | inr e ↦ rw (e) (get-Above name rest h)
]

module _ (name value k v : Bytes) (rest : ChangesetExtra) where
  set_before :
      cmp name k ≡ Ordering.lt → set name value ((k, v) ∷ rest) ≡ (name, value) ∷ ((k, v) ∷ rest)
  unfolding set
  set_before e = rw (set, e)

  set_here : cmp name k ≡ Ordering.eq → set name value ((k, v) ∷ rest) ≡ (k, value) ∷ rest
  unfolding set
  set_here e = rw (set, e)

  set_behind :
      cmp name k ≡ Ordering.gt → set name value ((k, v) ∷ rest) ≡ (k, v) ∷ set name value rest
  unfolding set
  set_behind e = rw (set, e)

-- Both tests cannot hold where the keys differ.
skip_both :
    (a b : Bool) (x y z : Option Bytes)
    → ¬ ((a ≡ true) × (b ≡ true))
    → (if a then x else (if b then y else z)) ≡ (if b then y else (if a then x else z))
skip_both true true x y z h = absurd (h (refl, refl))
skip_both true false x y z h = refl
skip_both false b x y z h = refl

-- What is set is found, and nothing else changes.
pub get-set :
    (name other value : Bytes) (e : ChangesetExtra)
    → get other (set name value e) ≡ (if bytes_eq name other then some value else get other e)
unfolding get
get-set name other value [] = unfold set in refl
get-set name other value ((k, v) ∷ rest) = elim (Ordering-cases (cmp name k)) [
  | inl e ↦ rw (set_before name value k v rest e) refl
  | inr (inl e) ↦
      let same = cmp-eq name k e in rw (set_here name value k v rest e, same) (ground (arith))
  | inr (inr e) ↦
      let apart : ¬ ((bytes_eq k other ≡ true) × (bytes_eq name other ≡ true)) = λ (p, q).
        let k_o = (bytes_eq_iff k other).0 p in
        let n_o = (bytes_eq_iff name other).0 q in
        let n_k : name ≡ k = n_o ∙ sym k_o in
        let self = cmp_refl k in let e' : cmp k k ≡ Ordering.gt = rw (n_k) at e in cc in
      rw (set_behind name value k v rest e, get-set name other value rest)
        (skip_both (bytes_eq k other) (bytes_eq name other) (some v) (some value) (get other rest)
          apart)
]

set-Above :
    (k name value : Bytes) (e : ChangesetExtra)
    → cmp k name ≡ Ordering.lt
    → All (Above k) e
    → All (Above k) (set name value e)
set-Above k name value [] h a = unfold set in (h, tt)
set-Above k name value ((k', v) ∷ rest) h (p, a) = elim (Ordering-cases (cmp name k')) [
  | inl e ↦ rw (set_before name value k' v rest e) (h, (p, a))
  | inr (inl e) ↦ rw (set_here name value k' v rest e) (p, a)
  | inr (inr e) ↦ rw (set_behind name value k' v rest e) (p, set-Above k name value rest h a)
]

-- The map stays in the order of its keys.
pub set-IsOrdered :
    (name value : Bytes) (e : ChangesetExtra) → IsOrdered e → IsOrdered (set name value e)
set-IsOrdered name value [] o = unfold set in (tt, tt)
set-IsOrdered name value ((k, v) ∷ rest) (a, o) = elim (Ordering-cases (cmp name k)) [
  | inl e ↦
      rw (set_before name value k v rest e)
        ((e, All-map (Above k) (Above name) (λ x h. cmp_trans name k x.0 e h) rest a), (a, o))
  | inr (inl e) ↦ rw (set_here name value k v rest e) (a, o)
  | inr (inr e) ↦
      rw (set_behind name value k v rest e)
        (set-Above k name value rest (cmp-gt name k e) a, set-IsOrdered name value rest o)
]

module _ (name k v : Bytes) (rest : ChangesetExtra) where
  unset_here : bytes_eq k name ≡ true → unset name ((k, v) ∷ rest) ≡ rest
  unfolding unset
  unset_here e = rw (unset, e)

  unset_behind : bytes_eq k name ≡ false → unset name ((k, v) ∷ rest) ≡ (k, v) ∷ unset name rest
  unfolding unset
  unset_behind e = rw (unset, e)

-- In an ordered map, what is removed is not found, and nothing else changes.
pub get-unset :
    (name other : Bytes) (e : ChangesetExtra)
    → IsOrdered e
    → get other (unset name e) ≡ (if bytes_eq name other then none else get other e)
unfolding get
get-unset name other [] o = elim (Bool-cases (bytes_eq name other)) [
  | inl e ↦ rw (e) (unfold unset in refl)
  | inr e ↦ rw (e) (unfold unset in refl)
]
get-unset name other ((k, v) ∷ rest) (a, o) = elim (Bool-cases (bytes_eq k name)) [
  | inl e ↦
      let same : k ≡ name = (bytes_eq_iff k name).0 e in
      elim (Bool-cases (bytes_eq name other)) [
        | inl q ↦
            let other_name : name ≡ other = (bytes_eq_iff name other).0 q in
            let above : All (Above other) rest = rw (same, other_name) at a in
            rw (unset_here name k v rest e, q) (get-Above other rest above)
        | inr q ↦ rw (unset_here name k v rest e, same, q) refl
      ]
  | inr e ↦
      let apart : ¬ ((bytes_eq k other ≡ true) × (bytes_eq name other ≡ true)) = λ (p, q).
        let k_o = (bytes_eq_iff k other).0 p in
        let n_o = (bytes_eq_iff name other).0 q in
        let k_n = (bytes_eq_iff k name).1 (k_o ∙ sym n_o) in cc in
      rw (unset_behind name k v rest e, get-unset name other rest o)
        (skip_both (bytes_eq k other) (bytes_eq name other) (some v) none (get other rest) apart)
]
