-- ===== src/Store/ManifestHeads/Order.antt =====
-- The set of the heads of manifests stays in order (src/store.rs).
use git_cinnabar.Common.{
  ◌≡◌, true, false, [], ◌∷◌, All, All-map, cmp, cmp_trans, cmp-gt, Ordering, Ordering-cases,
  Bool-cases, inl, inr,
}
use git_cinnabar.Oid.{Oid}
use git_cinnabar.Store.Heads.{id_eq}
use git_cinnabar.Store.ManifestHeads.{ManifestHeads, insert_head, remove_head, remove_all}

abbrev pub Above : Oid → Oid → Type 0
Above o p = cmp o.raw p.raw ≡ Ordering.lt

abbrev pub IsOrdered : ManifestHeads → Type 0
IsOrdered [] = Unit
IsOrdered (o ∷ os) = All (Above o) os × IsOrdered os

module _ (o p : Oid) (ps : ManifestHeads) where
  pub insert_before : cmp o.raw p.raw ≡ Ordering.lt → insert_head o (p ∷ ps) ≡ o ∷ (p ∷ ps)
  unfolding insert_head
  insert_before e = rw (insert_head, e)

  pub insert_here : cmp o.raw p.raw ≡ Ordering.eq → insert_head o (p ∷ ps) ≡ p ∷ ps
  unfolding insert_head
  insert_here e = rw (insert_head, e)

  pub insert_behind : cmp o.raw p.raw ≡ Ordering.gt → insert_head o (p ∷ ps) ≡ p ∷ insert_head o ps
  unfolding insert_head
  insert_behind e = rw (insert_head, e)

  pub remove_here : id_eq p o ≡ true → remove_head o (p ∷ ps) ≡ ps
  unfolding remove_head
  remove_here e = rw (remove_head, e)

  pub remove_behind : id_eq p o ≡ false → remove_head o (p ∷ ps) ≡ p ∷ remove_head o ps
  unfolding remove_head
  remove_behind e = rw (remove_head, e)

insert-Above :
    (q o : Oid) (ps : ManifestHeads)
    → Above q o
    → All (Above q) ps
    → All (Above q) (insert_head o ps)
insert-Above q o [] h a = unfold insert_head in (h, tt)
insert-Above q o (p ∷ ps) h (a, as') = elim (Ordering-cases (cmp o.raw p.raw)) [
  | inl e ↦ rw (insert_before o p ps e) (h, (a, as'))
  | inr (inl e) ↦ rw (insert_here o p ps e) (a, as')
  | inr (inr e) ↦ rw (insert_behind o p ps e) (a, insert-Above q o ps h as')
]

pub insert_head-IsOrdered :
    (o : Oid) (ps : ManifestHeads) → IsOrdered ps → IsOrdered (insert_head o ps)
insert_head-IsOrdered o [] v = unfold insert_head in (tt, tt)
insert_head-IsOrdered o (p ∷ ps) (a, v) = elim (Ordering-cases (cmp o.raw p.raw)) [
  | inl e ↦
      rw (insert_before o p ps e)
        ((e, All-map (Above p) (Above o) (λ x h. cmp_trans o.raw p.raw x.raw e h) ps a), (a, v))
  | inr (inl e) ↦ rw (insert_here o p ps e) (a, v)
  | inr (inr e) ↦
      rw (insert_behind o p ps e)
        (insert-Above p o ps (cmp-gt o.raw p.raw e) a, insert_head-IsOrdered o ps v)
]

remove-Above :
    (q o : Oid) (ps : ManifestHeads) → All (Above q) ps → All (Above q) (remove_head o ps)
remove-Above q o [] a = unfold remove_head in tt
remove-Above q o (p ∷ ps) (a, as') = elim (Bool-cases (id_eq p o)) [
  | inl e ↦ rw (remove_here o p ps e) as'
  | inr e ↦ rw (remove_behind o p ps e) (a, remove-Above q o ps as')
]

pub remove_head-IsOrdered :
    (o : Oid) (ps : ManifestHeads) → IsOrdered ps → IsOrdered (remove_head o ps)
remove_head-IsOrdered o [] v = unfold remove_head in tt
remove_head-IsOrdered o (p ∷ ps) (a, v) = elim (Bool-cases (id_eq p o)) [
  | inl e ↦ rw (remove_here o p ps e) v
  | inr e ↦ rw (remove_behind o p ps e) (remove-Above p o ps a, remove_head-IsOrdered o ps v)
]

pub remove_all-IsOrdered : (os ps : ManifestHeads) → IsOrdered ps → IsOrdered (remove_all os ps)
unfolding remove_all
remove_all-IsOrdered [] ps v = v
remove_all-IsOrdered (o ∷ os) ps v =
    remove_all-IsOrdered os (remove_head o ps) (remove_head-IsOrdered o ps v)
