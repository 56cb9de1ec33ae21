-- ===== src/Store/Dag/Marks.antt =====
-- The bits that a traversal of a `Dag` sets (src/store.rs).
use git_cinnabar.Common.{
  ℕ, zero, suc, ◌≤◌, ◌<◌, ◌≡◌, refl, ap, ◌⊎◌, ◌↔◌, inl, inr, true, false, List, [], ◌∷◌, some, ltb,
  if◌then◌else◌, length, get_elem?, set, length-set, lt→ltb, arith,
}
use git_cinnabar.Store.Dag.{Bits, unset, set_bit, mark, set_starts}

abbrev pub In : {A : Type 0} → A → List A → Type 0
In x [] = ⊥
In x (y ∷ ys) = (x ≡ y) ⊎ In x ys

abbrev pub IsMarked : Bits → ℕ → Type 0
IsMarked bits i = get_elem? bits i ≡ some true

pub length-unset : (n : ℕ) → length (unset n) ≡ n
length-unset zero = refl
length-unset (suc n) = ap suc (length-unset n)

pub unset-clear : (n i : ℕ) → ¬ IsMarked (unset n) i
unset-clear zero i h = cc
unset-clear (suc n) zero h = cc
unset-clear (suc n) (suc i) h = unset-clear n i h

pub get_elem?-total :
    {A : Type 0} (xs : List A) (i : ℕ) → i < length xs → (a : A) × (get_elem? xs i ≡ some a)
get_elem?-total [] i h = absurd (omega arith)
get_elem?-total (x ∷ xs) zero h = (x, refl)
get_elem?-total (x ∷ xs) (suc i) h = get_elem?-total xs i (omega arith)

pub bit-cases :
    (bits : Bits) (i : ℕ) → i < length bits → IsMarked bits i ⊎ (get_elem? bits i ≡ some false)
bit-cases [] i h = absurd (omega arith)
bit-cases (true ∷ bits) zero h = inl refl
bit-cases (false ∷ bits) zero h = inr refl
bit-cases (b ∷ bits) (suc i) h = bit-cases bits i (omega arith)

pub get_elem?-lt :
    {A : Type 0} (xs : List A) (i : ℕ) {a : A} → get_elem? xs i ≡ some a → i < length xs
get_elem?-lt [] i h = cc
get_elem?-lt (x ∷ xs) zero h = omega arith
get_elem?-lt (x ∷ xs) (suc i) h = omega (arith, get_elem?-lt xs i h)

pub set-IsMarked :
    (bits : Bits) (p i : ℕ)
    → p < length bits
    → IsMarked (set bits p true) i ↔ (IsMarked bits i ⊎ (i ≡ p))
set-IsMarked [] p i h = absurd (omega arith)
set-IsMarked (b ∷ bits) zero zero h = (λ _. inr refl, λ _. refl)
set-IsMarked (b ∷ bits) (suc p) (suc i) h = ground (arith, set-IsMarked bits p i)
set-IsMarked (b ∷ bits) (suc p) zero h = ground (arith)
set-IsMarked (b ∷ bits) zero (suc i) h = ground (arith)

-- What setting the bits at `ps` makes of `bits`.
pub record Sets (ps : List ℕ) (bits bits' : Bits) : Type 0 where
  pub size : length bits' ≡ length bits
  pub old : (i : ℕ) → IsMarked bits i → IsMarked bits' i
  pub new : (i : ℕ) → In i ps → IsMarked bits' i
  pub only : (i : ℕ) → IsMarked bits' i → IsMarked bits i ⊎ In i ps

pub set_bit-Sets :
    (p : ℕ) (bits : Bits)
    → p < length bits
    → (set_bit p bits ≡ some (set bits p true)) × Sets (p ∷ []) bits (set bits p true)
unfolding set_bit
set_bit-Sets p bits h =
    let flags = λ (i : ℕ). set-IsMarked bits p i h in
    (
      rw (lt→ltb p (length bits) h),
      record {
        size = length-set bits p true;
        old = λ i s. (flags i).1 (inl s);
        new = λ i m. (flags i).1 (ground (arith));
        only = λ i s. ground (arith, (flags i).0 s);
      },
    )

Sets-then :
    {p : ℕ} {ps : List ℕ} {a b c : Bits} → Sets (p ∷ []) a b → Sets ps b c → Sets (p ∷ ps) a c
Sets-then s t = record {
  size = omega (arith, s.size, t.size);
  old = λ i h. t.old i (s.old i h);
  new = λ i m. elim m [ inl e ↦ t.old i (s.new i (inl e)) | inr m ↦ t.new i m ];
  only = λ i h. elim (t.only i h) [
    | inr m ↦ inr (inr m)
    | inl h ↦ elim (s.only i h) [
      | inl h ↦ inl h
      | inr (inl e) ↦ inr (inl e)
      | inr (inr n) ↦ absurd n
    ]
  ];
}

pub Sets-nothing : (bits : Bits) → Sets [] bits bits
Sets-nothing bits = record {
  size = refl;
  old = λ i h. h;
  new = λ i m. absurd m;
  only = λ i h. inl h;
}

pub set_starts-Sets :
    (ps : List ℕ) (bits : Bits)
    → ((i : ℕ) → In i ps → i < length bits)
    → (bits' : Bits) × (set_starts ps bits ≡ some bits') × Sets ps bits bits'
unfolding set_starts
set_starts-Sets [] bits h = (bits, refl, Sets-nothing bits)
set_starts-Sets (p ∷ ps) bits h =
    let (e, s) = set_bit-Sets p bits (h p (inl refl)) in
    let (bits', e', s') = set_starts-Sets ps (set bits p true) (λ i m. rw (s.size) (h i (inr m))) in
    (bits', rw (e, e'), Sets-then s s')

pub mark-Sets :
    (ps : List ℕ) (bits : Bits) (smallest : ℕ)
    → ((i : ℕ) → In i ps → i < length bits)
    → (bits' : Bits) × (least : ℕ) × (mark ps bits smallest ≡ some (bits', least))
      × Sets ps bits bits'
      × (least ≤ smallest)
      × ((i : ℕ) → In i ps → least ≤ i)
unfolding mark
mark-Sets [] bits smallest h =
    (bits, smallest, refl, Sets-nothing bits, omega arith, λ i m. absurd m)
mark-Sets (p ∷ ps) bits smallest h =
    let (e, s) = set_bit-Sets p bits (h p (inl refl)) in
    let smaller = if ltb p smallest then p else smallest in
    let (bits', least, e', s', below, each) =
      mark-Sets ps (set bits p true) smaller (λ i m. rw (s.size) (h i (inr m))) in
    let to_p : smaller ≤ p = ground arith in
    let to_old : smaller ≤ smallest = ground arith in
    (
      bits',
      least,
      rw (e, e'),
      Sets-then s s',
      omega arith,
      λ i m. elim m [ inl e ↦ omega arith | inr m ↦ each i m ],
    )
