-- ===== src/Store/ManifestHeads/Members.antt =====
-- Which manifests are heads (src/store.rs).
use git_cinnabar.Common.{
  ◌≡◌, ◌≢◌, ap, sym, ◌∙◌, ◌⊎◌, ◌↔◌, inl, inr, List, [], ◌∷◌, Bytes, Option, some, All, cmp, cmp-eq,
  cmp_refl, Ordering, Ordering-cases, Bool-cases,
}
use git_cinnabar.Oid.{Oid}
use git_cinnabar.Oid.Hex.{HexCrate}
use git_cinnabar.GitCommit.{Commit}
use git_cinnabar.Store.Lines.{Bstr}
use git_cinnabar.Store.Heads.{id_eq}
use git_cinnabar.Store.Heads.Flags.{id_eq_iff}
use git_cinnabar.Store.Dag.Marks.{In}
use git_cinnabar.Store.ManifestHeads.{
  ManifestHeads, insert_head, remove_head, remove_all, commit_of, add_head,
}
use git_cinnabar.Store.ManifestHeads.Order.{
  Above, IsOrdered, insert_before, insert_here, insert_behind, remove_here, remove_behind,
  insert_head-IsOrdered, remove_head-IsOrdered, remove_all-IsOrdered,
}

pub insert_head-In :
    (o x : Oid) (ps : ManifestHeads) → In x (insert_head o ps) ↔ ((x ≡ o) ⊎ In x ps)
insert_head-In o x [] = unfold insert_head in (λ m. m, λ m. m)
insert_head-In o x (p ∷ ps) = elim (Ordering-cases (cmp o.raw p.raw)) [
  | inl e ↦ rw (insert_before o p ps e) (λ m. m, λ m. m)
  | inr (inl e) ↦
      let same : o ≡ p = ap (λ r. record { raw = r }) (cmp-eq o.raw p.raw e) in
      rw (insert_here o p ps e) (λ m. inr m, λ m. elim m [ inl s ↦ inl (s ∙ same) | inr k ↦ k ])
  | inr (inr e) ↦
      let (to, back) = insert_head-In o x ps in
      rw (insert_behind o p ps e) (
        λ m. elim m [
          | inl s ↦ inr (inl s)
          | inr k ↦ elim (to k) [ inl s ↦ inl s | inr j ↦ inr (inr j) ]
        ],
        λ m. elim m [
          | inl s ↦ inr (back (inl s))
          | inr k ↦ elim k [ inl s ↦ inl s | inr j ↦ inr (back (inr j)) ]
        ],
      )
]

not_below : (o x : Oid) (ps : ManifestHeads) → All (Above o) ps → In x ps → x ≢ o
not_below o x [] a m = absurd m
not_below o x (p ∷ ps) (a, as') m = elim m [
  | inl s ↦ λ e.
      let here : cmp p.raw p.raw ≡ Ordering.lt = rw (← e, s) at a in let self = cmp_refl p.raw in cc
  | inr k ↦ not_below o x ps as' k
]

remove_head-In :
    (o x : Oid) (ps : ManifestHeads) → IsOrdered ps → In x (remove_head o ps) ↔ (In x ps × (x ≢ o))
remove_head-In o x [] v = unfold remove_head in (λ m. absurd m, λ m. m.0)
remove_head-In o x (p ∷ ps) (a, v) = elim (Bool-cases (id_eq p o)) [
  | inl e ↦
      let same : p ≡ o = (id_eq_iff p o).0 e in
      rw (remove_here o p ps e) (
        λ m. (inr m, λ s. not_below p x ps a m (s ∙ sym same)),
        λ m. elim m.0 [ inl s ↦ absurd (m.1 (s ∙ same)) | inr k ↦ k ],
      )
  | inr e ↦
      let (to, back) = remove_head-In o x ps v in
      let apart : p ≢ o = λ s. let t = (id_eq_iff p o).1 s in cc in
      rw (remove_behind o p ps e) (
        λ m. elim m [
          | inl s ↦ (inl s, λ t. apart (sym s ∙ t))
          | inr k ↦ let (j, ne) = to k in (inr j, ne)
        ],
        λ m. elim m.0 [ inl s ↦ inl s | inr k ↦ inr (back (k, m.1)) ],
      )
]

remove_all-In :
    (os : List Oid) (x : Oid) (ps : ManifestHeads)
    → IsOrdered ps
    → In x (remove_all os ps) ↔ (In x ps × (¬ In x os))
unfolding remove_all
remove_all-In [] x ps v = (λ m. (m, λ n. n), λ m. m.0)
remove_all-In (o ∷ os) x ps v =
    let (to, back) = remove_all-In os x (remove_head o ps) (remove_head-IsOrdered o ps v) in
    let (to_here, back_here) = remove_head-In o x ps v in
    (
      λ m.
          let (k, others) = to m in
          let (j, ne) = to_here k in (j, λ n. elim n [ inl s ↦ ne s | inr r ↦ others r ]),
      λ m. back (back_here (m.0, λ s. m.1 (inl s)), λ r. m.1 (inr r)),
    )

-- Where the commit of a manifest can be read, `add` makes the manifest a head, and its parents are no
-- heads any more unless it is its own parent; nothing else changes, and the set stays in order.
pub add_head-In :
    (hex : HexCrate) (b : Bstr) (raw : Oid → Option Bytes) (head : Oid) (c : Commit)
    (heads : ManifestHeads)
    → IsOrdered heads
    → commit_of hex b raw head ≡ some c
    → (heads' : ManifestHeads) × (add_head hex b raw head heads ≡ some heads')
      × IsOrdered heads'
      × ((x : Oid) → In x heads' ↔ ((x ≡ head) ⊎ (In x heads × (¬ In x c.parents))))
unfolding add_head
add_head-In hex b raw head c heads v known =
    let left = remove_all c.parents heads in
    (
      insert_head head left,
      rw (known),
      insert_head-IsOrdered head left (remove_all-IsOrdered c.parents heads v),
      λ x.
          let (to, back) = insert_head-In head x left in
          let (to_left, back_left) = remove_all-In c.parents x heads v in
          (
            λ m. elim (to m) [ inl s ↦ inl s | inr k ↦ inr (to_left k) ],
            λ m. elim m [ inl s ↦ back (inl s) | inr k ↦ back (inr (back_left k)) ],
          ),
    )
