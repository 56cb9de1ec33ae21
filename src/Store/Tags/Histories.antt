-- ===== src/Store/Tags/Histories.antt =====
-- The histories of two tags that are merged (src/store.rs).
use git_cinnabar.Common.{
  ◌<◌, ◌≡◌, ◌≢◌, refl, sym, ◌⊎◌, ◌↔◌, inl, inr, true, false, List, [], ◌∷◌, ◌++◌, Option, none,
  some, length, Bool-cases, arith,
}
use git_cinnabar.Oid.{Oid}
use git_cinnabar.Store.Dag.Marks.{In}
use git_cinnabar.Store.Dag.Sorted.{Distinct}
use git_cinnabar.Store.Heads.{id_eq}
use git_cinnabar.Store.Heads.Flags.{id_eq_iff}
use git_cinnabar.Store.Tags.{Tag, contains, hist_insert, extend, stays, updated}

-- The node of `b` stays: it is another one than that of `a`, which is an old one of `b`, and either
-- it is no old one of `a`, or the history of `b` is longer.
abbrev pub Stays : Tag → Tag → Type 0
Stays b a =
    (b.node ≢ a.node) × In a.node b.hist × ((¬ In b.node a.hist) ⊎ (length a.hist < length b.hist))

-- What becomes of a tag with `b` in this set and `a` in the other one.
pub record IsMerged (b a t : Tag) : Type 0 where
  pub kept : Stays b a → t.node ≡ b.node
  pub taken : ¬ Stays b a → t.node ≡ a.node
  pub joined : (o : Oid) → In o t.hist ↔ (In o b.hist ⊎ In o a.hist)

-- The same, where a set may lack the tag.
abbrev pub Merged : Option Tag → Option Tag → Option Tag → Type 0
Merged none a t = t ≡ a
Merged (some b) none t = t ≡ some b
Merged (some b) (some a) t = (c : Tag) × (t ≡ some c) × IsMerged b a c

contains-In : (o : Oid) (ps : List Oid) → (contains o ps ≡ true) ↔ In o ps
unfolding contains
contains-In o [] = (λ e. cc, λ m. absurd m)
contains-In o (p ∷ ps) = elim (Bool-cases (id_eq p o)) [
  | inl e ↦ rw (e) (λ _. inl (sym ((id_eq_iff p o).0 e)), λ _. refl)
  | inr e ↦ rw (e) (
    λ h. inr ((contains-In o ps).0 h),
    λ m. elim m [
      | inl same ↦ let t = (id_eq_iff p o).1 (sym same) in cc
      | inr later ↦ (contains-In o ps).1 later
    ],
  )
]

contains-not_In : (o : Oid) (ps : List Oid) → contains o ps ≡ false → ¬ In o ps
contains-not_In o ps e m = let t = (contains-In o ps).1 m in cc

In-append : (o p : Oid) (ps : List Oid) → In o (ps ++ p ∷ []) ↔ (In o ps ⊎ (o ≡ p))
In-append o p [] = ground arith
In-append o p (q ∷ ps) = ground (arith, In-append o p ps)

hist_insert-In : (o p : Oid) (ps : List Oid) → In o (hist_insert p ps) ↔ (In o ps ⊎ (o ≡ p))
hist_insert-In o p ps = elim (Bool-cases (contains p ps)) [
  | inl e ↦
      let m = (contains-In p ps).0 e in
      rw (e) (inl, λ h. elim h [ inl i ↦ i | inr same ↦ rw (same) m ])
  | inr e ↦ rw (e) (In-append o p ps)
]

Distinct-append : (p : Oid) (ps : List Oid) → ¬ In p ps → Distinct ps → Distinct (ps ++ p ∷ [])
unfolding Distinct
Distinct-append p [] n d = (λ m. m, tt)
Distinct-append p (q ∷ ps) n (m, d) = (
  λ i. elim ((In-append q p ps).0 i) [ inl i ↦ m i | inr same ↦ n (inl (sym same)) ],
  Distinct-append p ps (λ i. n (inr i)) d,
)

pub hist_insert-Distinct : (p : Oid) (ps : List Oid) → Distinct ps → Distinct (hist_insert p ps)
hist_insert-Distinct p ps d = elim (Bool-cases (contains p ps)) [
  | inl e ↦ rw (e) d
  | inr e ↦ rw (e) (Distinct-append p ps (contains-not_In p ps e) d)
]

extend-In : (o : Oid) (ps os : List Oid) → In o (extend ps os) ↔ (In o ps ⊎ In o os)
unfolding extend
extend-In o ps [] = ground arith
extend-In o ps (p ∷ os) = ground (arith, extend-In o (hist_insert p ps) os, hist_insert-In o p ps)

pub extend-Distinct : (ps os : List Oid) → Distinct ps → Distinct (extend ps os)
unfolding extend
extend-Distinct ps [] d = d
extend-Distinct ps (p ∷ os) d = extend-Distinct (hist_insert p ps) os (hist_insert-Distinct p ps d)

stays-Stays : (b a : Tag) → (stays a b ≡ true) ↔ Stays b a
unfolding stays
stays-Stays b a =
    ground (arith, id_eq_iff b.node a.node, contains-In a.node b.hist, contains-In b.node a.hist)

pub updated-IsMerged : (b a : Tag) → IsMerged b a (updated a b)
updated-IsMerged b a = elim (Bool-cases (stays a b)) [
  | inl e ↦ record {
    kept = λ _. rw (e) refl;
    taken = λ n. absurd (n ((stays-Stays b a).0 e));
    joined = λ o. extend-In o b.hist a.hist;
  }
  | inr e ↦ record {
    kept = λ s. let t = (stays-Stays b a).1 s in cc;
    taken = λ _. rw (e) refl;
    joined = λ o. extend-In o b.hist a.hist;
  }
]
