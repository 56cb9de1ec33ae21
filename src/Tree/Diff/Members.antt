-- ===== src/Tree/Diff/Members.antt =====
-- What the differences of two listings are, entry by entry (src/tree_util.rs, `DiffByPath`).
use git_cinnabar.Common.{
  ◌≡◌, ◌≢◌, refl, ap, sym, ◌∙◌, ◌⊎◌, ◌↔◌, inl, inr, Bool, false, List, ◌∷◌, All,
}
use git_cinnabar.Store.Dag.Marks.{In}
use git_cinnabar.Store.Dag.Sorted.{All-In}
use git_cinnabar.Tree.Merge.Sorted.{name_of}
use git_cinnabar.Tree.{WithPath, EitherOrBoth, MayRecurse, with_path}

module _ {L : Type 0} {R : Type 0} where
  abbrev pub left_item : WithPath L → WithPath (EitherOrBoth L R)
  left_item l = with_path l.path (EitherOrBoth.left l.inner)

  abbrev pub right_item : WithPath R → WithPath (EitherOrBoth L R)
  right_item r = with_path r.path (EitherOrBoth.right r.inner)

  abbrev pub both_item : WithPath L → WithPath R → WithPath (EitherOrBoth L R)
  both_item l r = with_path l.path (EitherOrBoth.both l.inner r.inner)

module _ {L : Type 0} {R : Type 0} ⦃tl : MayRecurse L⦄ ⦃tr : MayRecurse R⦄ (eq : L → R → Bool) where
  abbrev pub OnlyLeft : List (WithPath L) → List (WithPath R) → WithPath (EitherOrBoth L R) → Type 0
  OnlyLeft ls rs w =
      (l : WithPath L) × In l ls × All (λ r. name_of r ≢ name_of l) rs × (w ≡ left_item l)

  abbrev pub OnlyRight :
      List (WithPath L) → List (WithPath R) → WithPath (EitherOrBoth L R) → Type 0
  OnlyRight ls rs w =
      (r : WithPath R) × In r rs × All (λ l. name_of l ≢ name_of r) ls × (w ≡ right_item r)

  abbrev pub Changed : List (WithPath L) → List (WithPath R) → WithPath (EitherOrBoth L R) → Type 0
  Changed ls rs w =
      (l : WithPath L) × (r : WithPath R) × In l ls
      × In r rs
      × (name_of l ≡ name_of r)
      × (eq l.inner r.inner ≡ false)
      × (w ≡ both_item l r)

  -- An entry whose name the other listing does not have, or two entries of the same name, of which the
  -- values are not equal.
  abbrev pub IsDifference :
      List (WithPath L) → List (WithPath R) → WithPath (EitherOrBoth L R) → Type 0
  IsDifference ls rs w = OnlyLeft ls rs w ⊎ (OnlyRight ls rs w ⊎ Changed ls rs w)

  module _ (l : WithPath L) (ls : List (WithPath L)) (rs : List (WithPath R))
      (w : WithPath (EitherOrBoth L R)) (apart : All (λ r. name_of r ≢ name_of l) rs) where
    left_to : IsDifference (l ∷ ls) rs w → (w ≡ left_item l) ⊎ IsDifference ls rs w
    left_to (inl (k, inl e, a, p)) = inl (p ∙ ap left_item e)
    left_to (inl (k, inr m, a, p)) = inr (inl (k, m, a, p))
    left_to (inr (inl (r, m, (a, as'), p))) = inr (inr (inl (r, m, as', p)))
    left_to (inr (inr (k, r, inl e, m, n, q, p))) =
        absurd (All-In (λ r. name_of r ≢ name_of l) rs apart r m (sym n ∙ ap name_of e))
    left_to (inr (inr (k, r, inr j, m, n, q, p))) = inr (inr (inr (k, r, j, m, n, q, p)))

    left_from : (w ≡ left_item l) ⊎ IsDifference ls rs w → IsDifference (l ∷ ls) rs w
    left_from (inl p) = inl (l, inl refl, apart, p)
    left_from (inr (inl (k, m, a, p))) = inl (k, inr m, a, p)
    left_from (inr (inr (inl (r, m, a, p)))) =
        inr (inl (r, m, (λ e. All-In (λ r. name_of r ≢ name_of l) rs apart r m (sym e), a), p))
    left_from (inr (inr (inr (k, r, j, m, n, q, p)))) = inr (inr (k, r, inr j, m, n, q, p))

    pub IsDifference-left : IsDifference (l ∷ ls) rs w ↔ ((w ≡ left_item l) ⊎ IsDifference ls rs w)
    IsDifference-left = (left_to, left_from)

  module _ (ls : List (WithPath L)) (r : WithPath R) (rs : List (WithPath R))
      (w : WithPath (EitherOrBoth L R)) (apart : All (λ l. name_of l ≢ name_of r) ls) where
    right_to : IsDifference ls (r ∷ rs) w → (w ≡ right_item r) ⊎ IsDifference ls rs w
    right_to (inl (k, m, (a, as'), p)) = inr (inl (k, m, as', p))
    right_to (inr (inl (s, inl e, a, p))) = inl (p ∙ ap right_item e)
    right_to (inr (inl (s, inr m, a, p))) = inr (inr (inl (s, m, a, p)))
    right_to (inr (inr (k, s, j, inl e, n, q, p))) =
        absurd (All-In (λ l. name_of l ≢ name_of r) ls apart k j (n ∙ ap name_of e))
    right_to (inr (inr (k, s, j, inr m, n, q, p))) = inr (inr (inr (k, s, j, m, n, q, p)))

    right_from : (w ≡ right_item r) ⊎ IsDifference ls rs w → IsDifference ls (r ∷ rs) w
    right_from (inl p) = inr (inl (r, inl refl, apart, p))
    right_from (inr (inl (k, m, a, p))) =
        inl (k, m, (λ e. All-In (λ l. name_of l ≢ name_of r) ls apart k m (sym e), a), p)
    right_from (inr (inr (inl (s, m, a, p)))) = inr (inl (s, inr m, a, p))
    right_from (inr (inr (inr (k, s, j, m, n, q, p)))) = inr (inr (k, s, j, inr m, n, q, p))

    pub IsDifference-right :
        IsDifference ls (r ∷ rs) w ↔ ((w ≡ right_item r) ⊎ IsDifference ls rs w)
    IsDifference-right = (right_to, right_from)

  module _ (l : WithPath L) (ls : List (WithPath L)) (r : WithPath R) (rs : List (WithPath R))
      (w : WithPath (EitherOrBoth L R)) (same : name_of l ≡ name_of r)
      (apart_l : All (λ k. name_of k ≢ name_of r) ls)
      (apart_r : All (λ s. name_of s ≢ name_of l) rs) where
    Here : Type 0
    Here = (eq l.inner r.inner ≡ false) × (w ≡ both_item l r)

    both_to : IsDifference (l ∷ ls) (r ∷ rs) w → Here ⊎ IsDifference ls rs w
    unfolding Here
    both_to (inl (k, inl e, (a, _), p)) = absurd (a (sym same ∙ sym (ap name_of e)))
    both_to (inl (k, inr m, (a, as'), p)) = inr (inl (k, m, as', p))
    both_to (inr (inl (s, inl e, (a, _), p))) = absurd (a (same ∙ sym (ap name_of e)))
    both_to (inr (inl (s, inr m, (a, as'), p))) = inr (inr (inl (s, m, as', p)))
    both_to (inr (inr (k, s, inl e, inl f, n, q, p))) = inl (rw (← e, ← f) q, rw (← e, ← f) p)
    both_to (inr (inr (k, s, inl e, inr j, n, q, p))) =
        absurd (All-In (λ s. name_of s ≢ name_of l) rs apart_r s j (sym n ∙ ap name_of e))
    both_to (inr (inr (k, s, inr i, inl f, n, q, p))) =
        absurd (All-In (λ k. name_of k ≢ name_of r) ls apart_l k i (n ∙ ap name_of f))
    both_to (inr (inr (k, s, inr i, inr j, n, q, p))) = inr (inr (inr (k, s, i, j, n, q, p)))

    both_from : Here ⊎ IsDifference ls rs w → IsDifference (l ∷ ls) (r ∷ rs) w
    unfolding Here
    both_from (inl (q, p)) = inr (inr (l, r, inl refl, inl refl, same, q, p))
    both_from (inr (inl (k, m, a, p))) =
        inl (k, inr m, (λ e. All-In (λ k. name_of k ≢ name_of r) ls apart_l k m (sym e), a), p)
    both_from (inr (inr (inl (s, m, a, p)))) =
        inr
          (inl (s, inr m, (λ e. All-In (λ s. name_of s ≢ name_of l) rs apart_r s m (sym e), a), p))
    both_from (inr (inr (inr (k, s, i, j, n, q, p)))) = inr (inr (k, s, inr i, inr j, n, q, p))

    pub IsDifference-both :
        IsDifference (l ∷ ls) (r ∷ rs) w
        ↔ (((eq l.inner r.inner ≡ false) × (w ≡ both_item l r)) ⊎ IsDifference ls rs w)
    unfolding Here
    IsDifference-both = (both_to, both_from)
