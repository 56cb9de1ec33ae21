-- ===== src/Store/Patch/InCommon.antt =====
-- What two texts have in common at their ends (src/store.rs, in `generate`).
use mathlib.Core.List.{reverse-append, reverse-reverse}
use git_cinnabar.Common.{
  ℕ, zero, suc, ◌-◌, ◌≤◌, ◌≡◌, refl, ap, sym, ◌∙◌, inl, inr, [], ◌∷◌, ◌++◌, Bytes, ◌==◌, length,
  length-append, length-drop, take, drop, take-append, take-append-drop, reverse, Bool-cases,
  ==_iff, arith,
}
use git_cinnabar.Store.Patch.{common_prefix, common_suffix}

pub take-common_prefix :
    (a b : Bytes)
    → (take (common_prefix a b) a ≡ take (common_prefix a b) b)
      × (common_prefix a b ≤ length a)
      × (common_prefix a b ≤ length b)
unfolding common_prefix
take-common_prefix [] b = (refl, omega arith, omega arith)
take-common_prefix (x ∷ a) [] = (refl, omega arith, omega arith)
take-common_prefix (x ∷ a) (y ∷ b) = elim (Bool-cases (x == y)) [
  | inl e ↦
      let (t, la, lb) = take-common_prefix a b in
      let same = (==_iff x y).0 e in
      rw (common_prefix, e) (rw (same, t) refl, omega arith, omega arith)
  | inr e ↦ rw (common_prefix, e) (refl, omega arith, omega arith)
]

-- The counts are the longest that can be in common at the ends.
pub le-common_prefix :
    (i : ℕ) (a b : Bytes)
    → i ≤ length a
    → i ≤ length b
    → take i a ≡ take i b
    → i ≤ common_prefix a b
unfolding common_prefix
le-common_prefix zero a b h k e = omega arith
le-common_prefix (suc i) [] b h k e = absurd (omega arith)
le-common_prefix (suc i) (x ∷ a) [] h k e = absurd (omega arith)
le-common_prefix (suc i) (x ∷ a) (y ∷ b) h k e =
    let same : x ≡ y = cc in
    let later : take i a ≡ take i b = cc in
    rw (common_prefix, (==_iff x y).1 same)
      (omega (arith, le-common_prefix i a b (omega arith) (omega arith) later))

length-reverse : (xs : Bytes) → length (reverse xs) ≡ length xs
length-reverse [] = refl
length-reverse (x ∷ xs) =
    ap length (reverse-append (x ∷ []) xs)
    ∙ length-append (reverse xs) (x ∷ [])
    ∙ omega (arith, length-reverse xs)

take-reverse :
    (n : ℕ) (xs : Bytes) → n ≤ length xs → take n (reverse xs) ≡ reverse (drop (length xs - n) xs)
take-reverse n xs h =
    let k = length xs - n in
    let split : reverse xs ≡ reverse (drop k xs) ++ reverse (take k xs) =
      ap reverse (sym (take-append-drop k xs)) ∙ reverse-append (take k xs) (drop k xs) in
    let size : length (reverse (drop k xs)) ≡ n =
      length-reverse (drop k xs) ∙ length-drop k xs ∙ omega arith in
    ap (take n) split ∙ take-append n (reverse (drop k xs)) (reverse (take k xs)) size

pub drop-common_suffix :
    (a b : Bytes)
    → (drop (length a - common_suffix a b) a ≡ drop (length b - common_suffix a b) b)
      × (common_suffix a b ≤ length a)
      × (common_suffix a b ≤ length b)
unfolding common_suffix
drop-common_suffix a b =
    let (t, la, lb) = take-common_prefix (reverse a) (reverse b) in
    let n : ℕ = common_prefix (reverse a) (reverse b) in
    let la' : n ≤ length a = omega (arith, length-reverse a) in
    let lb' : n ≤ length b = omega (arith, length-reverse b) in
    let ends : reverse (drop (length a - n) a) ≡ reverse (drop (length b - n) b) =
      sym (take-reverse n a la') ∙ t ∙ take-reverse n b lb' in
    (
      sym (reverse-reverse (drop (length a - n) a))
          ∙ ap reverse ends
          ∙ reverse-reverse (drop (length b - n) b),
      la',
      lb',
    )

pub le-common_suffix :
    (j : ℕ) (a b : Bytes)
    → j ≤ length a
    → j ≤ length b
    → drop (length a - j) a ≡ drop (length b - j) b
    → j ≤ common_suffix a b
unfolding common_suffix
le-common_suffix j a b h k e =
    let ends : take j (reverse a) ≡ take j (reverse b) =
      take-reverse j a h ∙ ap reverse e ∙ sym (take-reverse j b k) in
    le-common_prefix j (reverse a) (reverse b) (omega (arith, length-reverse a))
      (omega (arith, length-reverse b)) ends
