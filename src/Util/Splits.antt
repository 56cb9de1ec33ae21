-- ===== src/Util/Splits.antt =====
-- Splits take joined text apart, and what they return joins to the text.
use git_cinnabar.Common.{
  ℕ, ◌≡◌, refl, List, [], ◌∷◌, ◌++◌, Bytes, All, Lacks, none, some, arith, ap, append_assoc,
  append-nil, Option-cases, inl, inr, ==_refl, ◌∙◌, sym,
}
use git_cinnabar.Util.{split_once, rsplit_once, splitn_exact_3, rsplitn_exact_3, split, split_onto}

pub split_once-append :
    (sep : ℕ) (a b : Bytes) → Lacks sep a → split_once sep (a ++ sep ∷ b) ≡ some (a, b)
unfolding split_once
split_once-append sep [] b h = ground arith
split_once-append sep (c ∷ a) b (h, hs) = ground (arith, split_once-append sep a b hs)

pub split_once-Lacks : (sep : ℕ) (a : Bytes) → Lacks sep a → split_once sep a ≡ none
unfolding split_once
split_once-Lacks sep [] h = refl
split_once-Lacks sep (c ∷ a) (h, hs) = ground (arith, split_once-Lacks sep a hs)

pub rsplit_once-Lacks : (sep : ℕ) (a : Bytes) → Lacks sep a → rsplit_once sep a ≡ none
unfolding rsplit_once
rsplit_once-Lacks sep [] h = refl
rsplit_once-Lacks sep (c ∷ a) (h, hs) = ground (arith, rsplit_once-Lacks sep a hs)

pub rsplit_once-append :
    (sep : ℕ) (a b : Bytes) → Lacks sep b → rsplit_once sep (a ++ sep ∷ b) ≡ some (a, b)
unfolding rsplit_once
rsplit_once-append sep [] b h = ground (arith, rsplit_once-Lacks sep b h)
rsplit_once-append sep (c ∷ a) b h = ground (arith, rsplit_once-append sep a b h)

-- Where a text is split at a separator, the first part lacks it, and the parts join to the text.
pub split_once_sound :
    (sep : ℕ) (s a b : Bytes) → split_once sep s ≡ some (a, b) → Lacks sep a × (s ≡ a ++ sep ∷ b)
unfolding split_once
split_once_sound sep [] a b h = cc
split_once_sound sep (c ∷ s) a b h = elim (Option-cases (split_once sep s)) [
  | inl none_left ↦ ground arith
  | inr ((x, y), e) ↦ ground (arith, split_once_sound sep s x y e)
]

pub splitn_exact_3-append :
    (sep : ℕ) (a b c : Bytes)
    → Lacks sep a
    → Lacks sep b
    → splitn_exact_3 sep (a ++ sep ∷ (b ++ sep ∷ c)) ≡ some (a, b, c)
unfolding splitn_exact_3
splitn_exact_3-append sep a b c ha hb =
    rw (split_once-append sep a (b ++ sep ∷ c) ha) (rw (split_once-append sep b c hb))

-- Three parts joined by a separator that the last two lack are taken apart from the right.
pub rsplitn_exact_3-append :
    (sep : ℕ) (a b c : Bytes)
    → Lacks sep b
    → Lacks sep c
    → rsplitn_exact_3 sep (a ++ sep ∷ (b ++ sep ∷ c)) ≡ some (a, b, c)
unfolding rsplitn_exact_3
rsplitn_exact_3-append sep a b c hb hc =
    rw (← append_assoc a (sep ∷ b) (sep ∷ c))
      (rw (rsplit_once-append sep (a ++ sep ∷ b) c hc) (rw (rsplit_once-append sep a b hb)))

-- The parts with separators between them.
abbrev pub join : ℕ → List Bytes → Bytes
join sep [] = []
join sep (p ∷ []) = p
join sep (p ∷ (q ∷ qs)) = p ++ sep ∷ join sep (q ∷ qs)

split_onto-append :
    (sep : ℕ) (part p rest : Bytes)
    → Lacks sep p
    → split_onto sep part (p ++ rest) ≡ split_onto sep (part ++ p) rest
unfolding split_onto
split_onto-append sep part [] rest h = rw append-nil
split_onto-append sep part (c ∷ p) rest (h, hs) =
    ground (arith, split_onto-append sep (part ++ c ∷ []) p rest hs, append_assoc part (c ∷ []) p)

split_at_sep :
    (sep : ℕ) (part rest : Bytes) → split_onto sep part (sep ∷ rest) ≡ part ∷ split_onto sep [] rest
unfolding split_onto
split_at_sep sep part rest = rw (==_refl sep, split_onto)

split_onto-join :
    (sep : ℕ) (p : Bytes) (ps : List Bytes)
    → All (Lacks sep) (p ∷ ps)
    → split_onto sep [] (join sep (p ∷ ps)) ≡ p ∷ ps
split_onto-join sep p [] (h, _) =
    ap (split_onto sep []) (sym (append-nil p))
    ∙ split_onto-append sep [] p [] h
    ∙ unfold split_onto in refl
split_onto-join sep p (q ∷ qs) (h, hs) =
    split_onto-append sep [] p _ h ∙ split_at_sep sep p _ ∙ ap (◌∷◌ p) (split_onto-join sep q qs hs)

-- Splitting a join gives the parts back, if there is one and none holds the separator.
pub split-join :
    (sep : ℕ) (p : Bytes) (ps : List Bytes)
    → All (Lacks sep) (p ∷ ps)
    → split sep (join sep (p ∷ ps)) ≡ p ∷ ps
unfolding split
split-join sep p ps h = split_onto-join sep p ps h
