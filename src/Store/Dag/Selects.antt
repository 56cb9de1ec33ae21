-- ===== src/Store/Dag/Selects.antt =====
-- What a traversal of a `Dag` gives: the items with a property, in order; and the positions of the
-- nodes that it goes through (src/store.rs).
use mathlib.Core.List.{reverse-append}
use git_cinnabar.Common.{
  ℕ, zero, suc, ◌+◌, ◌≤◌, ◌<◌, ◌≡◌, refl, ap, sym, ◌∙◌, List, [], ◌∷◌, ◌++◌, some, All, All-append,
  length, get_elem?, take, drop, reverse, arith, take-append-drop, length-take, length-drop,
}
use git_cinnabar.Store.Dag.{DagNode, enumerate}

module _ {A B : Type 0} (P : A → Type 0) (f : A → B) where
  -- The second list holds what `f` makes of those with the property in the first, in order.
  pub data Selects : List A → List B → Type 0 where
    done : Selects [] []
    keep : {a : A} {xs : List A} {ys : List B} → P a → Selects xs ys → Selects (a ∷ xs) (f a ∷ ys)
    leave : {a : A} {xs : List A} {ys : List B} → ¬ P a → Selects xs ys → Selects (a ∷ xs) ys

  pub Selects-none : (xs : List A) → All (λ a. ¬ P a) xs → Selects xs []
  Selects-none [] h = done
  Selects-none (x ∷ xs) (n, h) = leave n (Selects-none xs h)

  pub Selects-skip :
      (xs : List A) {ys : List A} {zs : List B}
      → All (λ a. ¬ P a) xs
      → Selects ys zs
      → Selects (xs ++ ys) zs
  Selects-skip [] h s = s
  Selects-skip (x ∷ xs) (n, h) s = leave n (Selects-skip xs h s)

module _ {N T : Type 0} (dag : List (DagNode N T)) where
  -- The first `k` nodes downwards, with their positions.
  abbrev pub IsDown : ℕ → List (ℕ × DagNode N T) → Type 0
  IsDown k [] = k ≡ 0
  IsDown k (e ∷ es) = (k ≡ suc e.0) × (get_elem? dag e.0 ≡ some e.1) × IsDown e.0 es

  -- The nodes from the position `k` upwards.
  abbrev pub IsUp : ℕ → List (ℕ × DagNode N T) → Type 0
  IsUp k [] = length dag ≡ k
  IsUp k (e ∷ es) = (e.0 ≡ k) × (get_elem? dag e.0 ≡ some e.1) × IsUp (suc k) es

  pub IsDown-All :
      (Q : ℕ → Type 0) (k : ℕ) (es : List (ℕ × DagNode N T))
      → IsDown k es
      → ((i : ℕ) → i < k → Q i)
      → All (λ (e : ℕ × DagNode N T). Q e.0) es
  IsDown-All Q k [] d h = tt
  IsDown-All Q k (e ∷ es) (p, g, d) h =
      (h e.0 (omega arith), IsDown-All Q e.0 es d (λ i lt. h i (omega arith)))

zero_plus : (n : ℕ) → 0 + n ≡ n
zero_plus n = omega arith

module _ {N T : Type 0} where
  enumerate-append :
      (idx : ℕ) (xs ys : List (DagNode N T))
      → enumerate idx (xs ++ ys) ≡ enumerate idx xs ++ enumerate (length xs + idx) ys
  enumerate-append idx [] ys = rw (zero_plus idx)
  enumerate-append idx (x ∷ xs) ys =
      let e : suc (length xs) + idx ≡ length xs + suc idx = omega arith in
      rw (enumerate-append (suc idx) xs ys, e)

  take-suc :
      (k : ℕ) (xs : List (DagNode N T))
      → k < length xs
      → (x : DagNode N T) × (get_elem? xs k ≡ some x) × (take (suc k) xs ≡ take k xs ++ x ∷ [])
  take-suc k [] h = absurd (omega arith)
  take-suc zero (x ∷ xs) h = (x, refl, refl)
  take-suc (suc k) (x ∷ xs) h = let (y, g, t) = take-suc k xs (omega arith) in (y, g, ap (◌∷◌ x) t)

  pub enumerate-IsDown :
      (dag : List (DagNode N T)) (k : ℕ)
      → k ≤ length dag
      → IsDown dag k (reverse (enumerate 0 (take k dag)))
  enumerate-IsDown dag zero h = refl
  enumerate-IsDown dag (suc k) h =
      let (x, g, t) = take-suc k dag (omega arith) in
      let l : length (take k dag) + 0 ≡ k = omega (arith, length-take k dag) in
      rw
        (
          t,
          enumerate-append 0 (take k dag) (x ∷ []),
          reverse-append (enumerate 0 (take k dag)) ((length (take k dag) + 0, x) ∷ []),
          l,
        )
        (refl, g, enumerate-IsDown dag k (omega arith))

  All-reverse :
      (Q : ℕ × DagNode N T → Type 0) (xs : List (ℕ × DagNode N T)) → All Q xs → All Q (reverse xs)
  All-reverse Q [] a = tt
  All-reverse Q (x ∷ xs) (q, a) =
      rw (reverse-append (x ∷ []) xs)
        (All-append Q (reverse xs) (x ∷ []) (All-reverse Q xs a) (q, tt))

  pub All-enumerate :
      (Q : ℕ → Type 0) (k : ℕ) (xs : List (DagNode N T))
      → ((i : ℕ) → k ≤ i → Q i)
      → All (λ (e : ℕ × DagNode N T). Q e.0) (enumerate k xs)
  All-enumerate Q k [] h = tt
  All-enumerate Q k (x ∷ xs) h =
      (h k (omega arith), All-enumerate Q (suc k) xs (λ i le. h i (omega arith)))

  enumerate-split :
      (k : ℕ) (dag : List (DagNode N T))
      → k ≤ length dag
      → enumerate 0 dag ≡ enumerate 0 (take k dag) ++ enumerate k (drop k dag)
  enumerate-split k dag h =
      let l : length (take k dag) + 0 ≡ k = omega (arith, length-take k dag) in
      ap (enumerate 0) (sym (take-append-drop k dag))
      ∙ enumerate-append 0 (take k dag) (drop k dag)
      ∙ ap (λ i. enumerate 0 (take k dag) ++ enumerate i (drop k dag)) l

  -- Nothing is selected from a position upwards.
  pub Selects-below :
      {B : Type 0} (Q : ℕ → Type 0) (f : ℕ × DagNode N T → B) (k : ℕ) (dag : List (DagNode N T))
      {out : List B}
      → k ≤ length dag
      → ((i : ℕ) → k ≤ i → ¬ Q i)
      → Selects (λ (e : ℕ × DagNode N T). Q e.0) f (reverse (enumerate 0 (take k dag))) out
      → Selects (λ (e : ℕ × DagNode N T). Q e.0) f (reverse (enumerate 0 dag)) out
  Selects-below Q f k dag h n s =
      rw
        (
          enumerate-split k dag h,
          reverse-append (enumerate 0 (take k dag)) (enumerate k (drop k dag)),
        )
        (Selects-skip (λ e. Q e.0) f (reverse (enumerate k (drop k dag)))
          (All-reverse (λ e. ¬ Q e.0) _ (All-enumerate (λ i. ¬ Q i) k (drop k dag) n)) s)

  drop-enumerate :
      (k i : ℕ) (xs : List (DagNode N T)) → drop k (enumerate i xs) ≡ enumerate (k + i) (drop k xs)
  drop-enumerate zero i xs = rw (zero_plus i)
  drop-enumerate (suc k) i [] = refl
  drop-enumerate (suc k) i (x ∷ xs) =
      let e : k + suc i ≡ suc k + i = omega arith in rw (drop-enumerate k (suc i) xs, e)

  drop-suc :
      (k : ℕ) (xs : List (DagNode N T)) (y : DagNode N T) (ys : List (DagNode N T))
      → drop k xs ≡ y ∷ ys
      → (get_elem? xs k ≡ some y) × (drop (suc k) xs ≡ ys) × (suc k ≤ length xs)
  drop-suc zero [] y ys h = cc
  drop-suc zero (x ∷ xs) y ys h = ground (arith)
  drop-suc (suc k) [] y ys h = cc
  drop-suc (suc k) (x ∷ xs) y ys h = let (g, d, l) = drop-suc k xs y ys h in (g, d, omega arith)

  enumerate-IsUp :
      (dag : List (DagNode N T)) (k : ℕ) (ys : List (DagNode N T))
      → k ≤ length dag
      → drop k dag ≡ ys
      → IsUp dag k (enumerate k ys)
  enumerate-IsUp dag k [] h e = omega (arith, length-drop k dag, ap length e)
  enumerate-IsUp dag k (y ∷ ys) h e =
      let (g, d, l) = drop-suc k dag y ys e in (refl, g, enumerate-IsUp dag (suc k) ys l d)

  pub drop-IsUp :
      (dag : List (DagNode N T)) (k : ℕ) → k ≤ length dag → IsUp dag k (drop k (enumerate 0 dag))
  drop-IsUp dag k h =
      let e : k + 0 ≡ k = omega arith in
      rw (drop-enumerate k 0 dag, e) (enumerate-IsUp dag k (drop k dag) h refl)

  All-enumerate-lt :
      (Q : ℕ → Type 0) (k : ℕ) (xs : List (DagNode N T))
      → ((i : ℕ) → i < length xs + k → Q i)
      → All (λ (e : ℕ × DagNode N T). Q e.0) (enumerate k xs)
  All-enumerate-lt Q k [] h = tt
  All-enumerate-lt Q k (x ∷ xs) h =
      (h k (omega arith), All-enumerate-lt Q (suc k) xs (λ i lt. h i (omega arith)))

  -- Nothing is selected below a position.
  pub Selects-above :
      {B : Type 0} (Q : ℕ → Type 0) (f : ℕ × DagNode N T → B) (k : ℕ) (dag : List (DagNode N T))
      {out : List B}
      → k ≤ length dag
      → ((i : ℕ) → i < k → ¬ Q i)
      → Selects (λ (e : ℕ × DagNode N T). Q e.0) f (drop k (enumerate 0 dag)) out
      → Selects (λ (e : ℕ × DagNode N T). Q e.0) f (enumerate 0 dag) out
  Selects-above Q f k dag h n s =
      let e : k + 0 ≡ k = omega arith in
      let s' : Selects (λ (e : ℕ × DagNode N T). Q e.0) f (enumerate k (drop k dag)) _ =
        rw (drop-enumerate k 0 dag, e) at s in
      rw (enumerate-split k dag h) (
        Selects-skip (λ e. Q e.0) f (enumerate 0 (take k dag))
          (All-enumerate-lt (λ i. ¬ Q i) 0 (take k dag)
            (λ i lt. n i (omega (arith, length-take k dag))))
          s')
