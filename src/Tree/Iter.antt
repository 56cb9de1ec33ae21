-- ===== src/Tree/Iter.antt =====
-- Rust's `Iterator` as a function to the next item and the state behind it, with the adaptors that
-- src/tree_util.rs uses.
use git_cinnabar.Common.{
  length, arith, inl, inr, ap, Bool-cases, if◌then◌else◌, refl, sym, ◌∙◌, ◌≤◌, ℕ, zero, suc, ◌<◌,
  ◌≡◌, Bool, true, false, List, [], ◌∷◌, Option, none, some,
}

module _ {ℓ κ} {S : Type ℓ} {A : Type κ} (next : S → Option (A × S)) where
  -- What an iterator returns in `fuel` calls of `next`.
  unfoldable pub collect : ℕ → S → List A
  collect zero s = []
  collect (suc fuel) s = elim (next s) [ none ↦ [] | some (a, s') ↦ a ∷ collect fuel s' ]

  -- `Iterator::find`: items that fail the test are dropped.
  unfoldable pub find : (A → Bool) → ℕ → S → Option (A × S)
  find test zero s = none
  find test (suc fuel) s = elim (next s) [
    | none ↦ none
    | some (a, s') ↦ elim (test a) [ true ↦ some (a, s') | false ↦ find test fuel s' ]
  ]

  -- The iterator returns these items and then ends.
  pub data Yields : S → List A → Type (ℓ ⊔ κ) where
    stop : {s : S} → next s ≡ none → Yields s []
    more :
        {s s' : S} {a : A} {items : List A}
        → next s ≡ some (a, s')
        → Yields s' items
        → Yields s (a ∷ items)

ends-not {ℓ} : {B : Type ℓ} {o : Option B} {b : B} → o ≡ none → o ≡ some b → ⊥
ends-not e d = cc

some-pair {ℓ κ} :
    {S : Type ℓ} {A : Type κ} {a b : A} {s t : S}
    → ◌≡◌ {A = Option (A × S)} (some (a, s)) (some (b, t))
    → (a ≡ b) × (s ≡ t)
some-pair h = (cc, cc)

abbrev pub filter {κ} : {A : Type κ} → (A → Bool) → List A → List A
filter test [] = []
filter test (a ∷ items) = if test a then a ∷ filter test items else filter test items

module _ {ℓ κ} {S : Type ℓ} {A : Type κ} (next : S → Option (A × S)) where
  -- As many calls items there are items give them all.
  pub collect-Yields :
      (fuel : ℕ) {s : S} {items : List A}
      → Yields next s items
      → length items ≤ fuel
      → collect next fuel s ≡ items
  unfolding collect
  collect-Yields zero (Yields.stop e) h = refl
  collect-Yields zero (Yields.more e y) h = absurd (omega arith)
  collect-Yields (suc fuel) (Yields.stop e) h = rw (e, collect)
  collect-Yields (suc fuel) (Yields.more e y) h =
      rw (e, collect) (rw (collect-Yields fuel y (omega arith)))

  -- An iterator returns one list.
  pub Yields-unique :
      {s : S} {items others : List A} → Yields next s items → Yields next s others → items ≡ others
  Yields-unique (Yields.stop e) (Yields.stop d) = refl
  Yields-unique (Yields.stop e) (Yields.more d y) = absurd (ends-not e d)
  Yields-unique (Yields.more e y) (Yields.stop d) = absurd (ends-not d e)
  Yields-unique (Yields.more {s' = s'} {a} {items} e y)
        (Yields.more {s' = t'} {a = b} {items = others} d z) =
      let (same, state) = some-pair (sym e ∙ d) in
      rw same (ap (◌∷◌ b) (Yields-unique y (rw state z)))

  module _ (test : A → Bool) where
    -- What one call of `find` does to an iterator that yields `items`.
    data Found (items : List A) (o : Option (A × S)) : Type (ℓ ⊔ κ) where
      exhausted : o ≡ none → filter test items ≡ [] → Found items o
      found :
          (a : A) (s' : S) (rest : List A)
          → o ≡ some (a, s')
          → Yields next s' rest
          → filter test items ≡ a ∷ filter test rest
          → length rest < length items
          → Found items o

    Found-skip :
        (a : A) (items : List A) {o : Option (A × S)}
        → test a ≡ false
        → Found items o
        → Found (a ∷ items) o
    Found-skip a items t (exhausted e f) = exhausted e (rw t f)
    Found-skip a items t (found b s' rest e y f h) = found b s' rest e y (rw t f) (omega arith)

    find-Found :
        (fuel : ℕ) {s : S} {items : List A}
        → Yields next s items
        → length items < fuel
        → Found items (find next test fuel s)
    unfolding find
    find-Found zero y h = absurd (omega arith)
    find-Found (suc fuel) {s} (Yields.stop e) h = exhausted (rw (e, find)) refl
    find-Found (suc fuel) {s} (Yields.more {s' = s'} {a} {items} e y) h =
        elim (Bool-cases (test a)) [
          | inl t ↦
              found a s' items (rw (e, find, t)) y
                (ap (λ b. if b then a ∷ filter test items else filter test items) t) (omega arith)
          | inr t ↦ rw (e, find, t) (Found-skip a items t (find-Found fuel y (omega arith)))
        ]

    Found-Yields :
        (fuel : S → ℕ) {s : S} {items : List A}
        → ((s' : S) (rest : List A)
            → Yields next s' rest
            → length rest < length items
            → Yields (λ s. find next test (fuel s) s) s' (filter test rest))
        → Found items (find next test (fuel s) s)
        → Yields (λ s. find next test (fuel s) s) s (filter test items)
    Found-Yields fuel later (exhausted e f) = rw f (Yields.stop e)
    Found-Yields fuel later (found a s' rest e y f lt) = rw f (Yields.more e (later s' rest y lt))

    -- An iterator whose `next` is `find` yields the items that pass the test.
    pub find-Yields :
        (fuel : S → ℕ)
        → ((s : S) (items : List A) → Yields next s items → length items < fuel s)
        → (n : ℕ) {s : S} {items : List A} → Yields next s items
        → length items ≤ n
        → Yields (λ s. find next test (fuel s) s) s (filter test items)
    find-Yields fuel enough zero {s} {items} y h =
        Found-Yields fuel (λ s' rest y' lt. absurd (omega arith))
          (find-Found (fuel s) y (enough s items y))
    find-Yields fuel enough (suc n) {s} {items} y h =
        Found-Yields fuel (λ s' rest y' lt. find-Yields fuel enough n y' (omega arith))
          (find-Found (fuel s) y (enough s items y))
