-- ===== src/Store/Dag/Sorted.antt =====
-- The sorted starts of a traversal (src/store.rs).
use git_cinnabar.Common.{
  ℕ, ◌≤◌, ◌<◌, ◌≡◌, refl, sym, ◌≢◌, ◌⊎◌, ◌↔◌, inl, inr, List, [], ◌∷◌, leb, All, All-map,
  Bool-cases, leb→le, arith,
}
use git_cinnabar.Store.Dag.{insert, sorted, last_or, head_or}
use git_cinnabar.Store.Dag.Marks.{In}

abbrev pub IsSorted : List ℕ → Type 0
IsSorted [] = Unit
IsSorted (x ∷ xs) = All (λ y. x ≤ y) xs × IsSorted xs

In-insert : (i x : ℕ) (ys : List ℕ) → In i (insert x ys) ↔ ((i ≡ x) ⊎ In i ys)
unfolding insert
In-insert i x [] = (λ m. m, λ m. m)
In-insert i x (y ∷ ys) = ground (arith, In-insert i x ys)

pub In-sorted : (i : ℕ) (xs : List ℕ) → In i (sorted xs) ↔ In i xs
unfolding sorted
In-sorted i [] = (λ m. m, λ m. m)
In-sorted i (x ∷ xs) = ground (arith, In-insert i x (sorted xs), In-sorted i xs)

All-insert : (m x : ℕ) (ys : List ℕ) → m ≤ x → All (λ y. m ≤ y) ys → All (λ y. m ≤ y) (insert x ys)
unfolding insert
All-insert m x [] h a = (h, tt)
All-insert m x (y ∷ ys) h (le, a) = elim (Bool-cases (leb x y)) [
  | inl e ↦ rw (e) (h, (le, a))
  | inr e ↦ rw (e) (le, All-insert m x ys h a)
]

insert-IsSorted : (x : ℕ) (ys : List ℕ) → IsSorted ys → IsSorted (insert x ys)
unfolding insert
insert-IsSorted x [] s = (tt, tt)
insert-IsSorted x (y ∷ ys) (a, s) = elim (Bool-cases (leb x y)) [
  | inl e ↦
      let le = leb→le x y e in
      rw (e) ((le, All-map (λ z. y ≤ z) (λ z. x ≤ z) (λ z h. omega arith) ys a), (a, s))
  | inr e ↦ rw (e) (All-insert y x ys (ground arith) a, insert-IsSorted x ys s)
]

pub sorted-IsSorted : (xs : List ℕ) → IsSorted (sorted xs)
unfolding sorted
sorted-IsSorted [] = tt
sorted-IsSorted (x ∷ xs) = insert-IsSorted x (sorted xs) (sorted-IsSorted xs)

pub All-In : {A : Type 0} (P : A → Type 0) (xs : List A) → All P xs → (i : A) → In i xs → P i
All-In P [] a i m = absurd m
All-In P (x ∷ xs) (p, a) i (inl e) = rw (e) p
All-In P (x ∷ xs) (p, a) i (inr m) = All-In P xs a i m

pub head_or-le : (d : ℕ) (xs : List ℕ) → IsSorted xs → (i : ℕ) → In i xs → head_or d xs ≤ i
head_or-le d [] s i m = absurd m
head_or-le d (x ∷ xs) (a, s) i (inl e) = omega arith
head_or-le d (x ∷ xs) (a, s) i (inr m) = All-In (λ y. x ≤ y) xs a i m

pub last_or-In : (x : ℕ) (xs : List ℕ) → In (last_or x xs) (x ∷ xs)
last_or-In x [] = inl refl
last_or-In x (y ∷ ys) = inr (last_or-In y ys)

pub le-last_or :
    (x : ℕ) (xs : List ℕ) → IsSorted (x ∷ xs) → (i : ℕ) → In i (x ∷ xs) → i ≤ last_or x xs
le-last_or x [] s i (inl e) = omega arith
le-last_or x [] s i (inr m) = absurd m
le-last_or x (y ∷ ys) ((le, a), s) i (inl e) = omega (arith, le-last_or y ys s y (inl refl))
le-last_or x (y ∷ ys) (a, s) i (inr m) = le-last_or y ys s i m

-- Strictly upwards, so that no element stands there twice.
abbrev pub IsStrict : List ℕ → Type 0
IsStrict [] = Unit
IsStrict (x ∷ xs) = All (λ y. x < y) xs × IsStrict xs

unfoldable pub Distinct : {A : Type 0} → List A → Type 0
Distinct [] = Unit
Distinct (x ∷ xs) = (¬ In x xs) × Distinct xs

strict_of_sorted : (x : ℕ) (ys : List ℕ) → All (λ y. x ≤ y) ys → ¬ In x ys → All (λ y. x < y) ys
strict_of_sorted x [] a n = tt
strict_of_sorted x (y ∷ ys) (le, a) n =
    let ne : x ≢ y = λ e. n (inl e) in (omega arith, strict_of_sorted x ys a (λ m. n (inr m)))

IsStrict-IsSorted : (xs : List ℕ) → IsSorted xs → Distinct xs → IsStrict xs
unfolding Distinct
IsStrict-IsSorted [] s d = tt
IsStrict-IsSorted (x ∷ xs) (a, s) (n, d) = (strict_of_sorted x xs a n, IsStrict-IsSorted xs s d)

insert-Distinct : (x : ℕ) (ys : List ℕ) → ¬ In x ys → Distinct ys → Distinct (insert x ys)
unfolding insert Distinct
insert-Distinct x [] n d = (n, tt)
insert-Distinct x (y ∷ ys) n (m, d) = elim (Bool-cases (leb x y)) [
  | inl e ↦ rw (e) (n, (m, d))
  | inr e ↦ rw (e) (
    λ i. elim ((In-insert y x ys).0 i) [ inl same ↦ n (inl (sym same)) | inr i ↦ m i ],
    insert-Distinct x ys (λ i. n (inr i)) d,
  )
]

sorted-Distinct : (xs : List ℕ) → Distinct xs → Distinct (sorted xs)
unfolding sorted Distinct
sorted-Distinct [] d = tt
sorted-Distinct (x ∷ xs) (n, d) =
    insert-Distinct x (sorted xs) (λ m. n ((In-sorted x xs).0 m)) (sorted-Distinct xs d)

pub sorted-IsStrict : (xs : List ℕ) → Distinct xs → IsStrict (sorted xs)
sorted-IsStrict xs d = IsStrict-IsSorted (sorted xs) (sorted-IsSorted xs) (sorted-Distinct xs d)
