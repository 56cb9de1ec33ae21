-- ===== src/Store/Patch/Cuts.antt =====
-- Parts of a text, by offsets (src/xdiff.rs, `apply`).
use git_cinnabar.Common.{
  ℕ, zero, suc, ◌+◌, ◌-◌, ◌≤◌, ◌<◌, ◌≡◌, refl, ap, sym, ◌∙◌, [], ◌∷◌, ◌++◌, Bytes, none, some,
  length, length-take, length-drop, take, drop, le→leb, arith,
}
use git_cinnabar.Xdiff.{slice}

-- The bytes between two positions.
abbrev pub cut : Bytes → ℕ → ℕ → Bytes
cut new from to = take (to - from) (drop from new)

pub slice-cut :
    (new : Bytes) (from to : ℕ)
    → from ≤ to
    → to ≤ length new
    → slice new from to ≡ some (cut new from to)
unfolding slice
slice-cut new from to h k = rw (le→leb from to h, le→leb to (length new) k)

pub slice-none : (new : Bytes) (from to : ℕ) → to < from → slice new from to ≡ none
unfolding slice
slice-none new from to h = ground arith

pub drop-plus : (n m k : ℕ) (xs : Bytes) → k ≡ n + m → drop k xs ≡ drop m (drop n xs)
drop-plus zero m k xs h = let e : k ≡ m = omega arith in rw (e)
drop-plus (suc n) m zero xs h = absurd (omega arith)
drop-plus (suc n) zero (suc k) [] h = refl
drop-plus (suc n) (suc m) (suc k) [] h = refl
drop-plus (suc n) m (suc k) (x ∷ xs) h = drop-plus n m k xs (omega arith)

pub take-plus : (n m k : ℕ) (xs : Bytes) → k ≡ n + m → take k xs ≡ take n xs ++ take m (drop n xs)
take-plus zero m k xs h = let e : k ≡ m = omega arith in rw (e)
take-plus (suc n) m zero xs h = absurd (omega arith)
take-plus (suc n) zero (suc k) [] h = refl
take-plus (suc n) (suc m) (suc k) [] h = refl
take-plus (suc n) m (suc k) (x ∷ xs) h = ap (◌∷◌ x) (take-plus n m k xs (omega arith))

pub cut-append :
    (new : Bytes) (a b c : ℕ) → a ≤ b → b ≤ c → cut new a b ++ cut new b c ≡ cut new a c
cut-append new a b c h k = sym (
    take-plus (b - a) (c - b) (c - a) (drop a new) (omega arith)
    ∙ ap (λ t. cut new a b ++ take (c - b) t) (sym (drop-plus a (b - a) b new (omega arith))))

pub lt_sum : (a b n : ℕ) → n < a + b → b ≤ n → n - b < a
lt_sum a b n h k = omega arith

pub sum_le : (a b n : ℕ) → a ≤ n - b → b ≤ n → a + b ≤ n
sum_le a b n h k = omega arith

pub length-cut : (new : Bytes) (a b : ℕ) → a ≤ b → b ≤ length new → length (cut new a b) ≡ b - a
length-cut new a b h k = omega (arith, length-take (b - a) (drop a new), length-drop a new)

pub slice-some :
    (new : Bytes) (from to : ℕ) {t : Bytes}
    → slice new from to ≡ some t
    → (from ≤ to) × (to ≤ length new)
unfolding slice
slice-some new from to h = ground arith
