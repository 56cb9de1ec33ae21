-- ===== src/Tree/Order.antt =====
-- The order of `WithPath::cmp_path` is that of the recursed names.
use git_cinnabar.Common.{
  ℕ, suc, ◌≡◌, refl, Bool, true, false, [], ◌∷◌, ◌++◌, Bytes, Lacks, if◌then◌else◌, min, compare,
  Ordering, cmp, arith,
}
use git_cinnabar.Tree.{WithPath, MayRecurse, cmp_names, cmp_path}

-- The name under which an entry sorts: that of a tree ends in a slash.
abbrev pub recursed_name : Bool → Bytes → Bytes
recursed_name is_tree name = if is_tree then name ++ b'/' ∷ [] else name

-- No path component has a slash in it.
abbrev pub TreeLacksSlash : Bool → Bytes → Type 0
TreeLacksSlash true name = Lacks b'/' name
TreeLacksSlash false name = Unit

min-suc : (n m : ℕ) → min (suc n) (suc m) ≡ suc (min n m)
min-suc n m = omega arith

min_zero : (n : ℕ) → min 0 n ≡ 0
min_zero n = omega arith

min-zero : (n : ℕ) → min n 0 ≡ 0
min-zero n = omega arith

-- Equal first bytes are skipped, and others decide.
cmp_names-cons :
    (s t : Bool) (x y : ℕ) (a b : Bytes)
    → cmp_names s t (x ∷ a) (y ∷ b) ≡ elim (compare x y) [
      | Ordering.eq ↦ cmp_names s t a b
      | Ordering.lt ↦ Ordering.lt
      | Ordering.gt ↦ Ordering.gt
    ]
unfolding cmp_names cmp
cmp_names-cons s t x y a b = rw min-suc (ground arith)

cmp_names-nil :
    (s t : Bool) (b : Bytes)
    → TreeLacksSlash t b
    → cmp_names s t [] b ≡ cmp (recursed_name s []) (recursed_name t b)
unfolding cmp_names cmp
cmp_names-nil true true [] k = refl
cmp_names-nil true false [] k = refl
cmp_names-nil false true [] k = refl
cmp_names-nil false false [] k = refl
cmp_names-nil true true (y ∷ b) k = ground arith
cmp_names-nil true false (y ∷ b) k = ground arith
cmp_names-nil false true (y ∷ b) k = ground arith
cmp_names-nil false false (y ∷ b) k = ground arith

cmp_names-nil_right :
    (s t : Bool) (x : ℕ) (a : Bytes)
    → TreeLacksSlash s (x ∷ a)
    → cmp_names s t (x ∷ a) [] ≡ cmp (recursed_name s (x ∷ a)) (recursed_name t [])
unfolding cmp_names cmp
cmp_names-nil_right true true x a k = rw min-zero (ground arith)
cmp_names-nil_right true false x a k = rw min-zero (ground arith)
cmp_names-nil_right false true x a k = rw min-zero (ground arith)
cmp_names-nil_right false false x a k = refl

cmp_names-recursed_name :
    (s t : Bool) (a b : Bytes)
    → TreeLacksSlash s a
    → TreeLacksSlash t b
    → cmp_names s t a b ≡ cmp (recursed_name s a) (recursed_name t b)
unfolding cmp
cmp_names-recursed_name s t [] b h k = cmp_names-nil s t b k
cmp_names-recursed_name s t (x ∷ a) [] h k = cmp_names-nil_right s t x a h
cmp_names-recursed_name true true (x ∷ a) (y ∷ b) (hx, h) (ky, k) =
    rw (cmp_names-cons true true x y a b)
      (ground (arith, cmp_names-recursed_name true true a b h k))
cmp_names-recursed_name true false (x ∷ a) (y ∷ b) (hx, h) k =
    rw (cmp_names-cons true false x y a b)
      (ground (arith, cmp_names-recursed_name true false a b h tt))
cmp_names-recursed_name false true (x ∷ a) (y ∷ b) h (ky, k) =
    rw (cmp_names-cons false true x y a b)
      (ground (arith, cmp_names-recursed_name false true a b tt k))
cmp_names-recursed_name false false (x ∷ a) (y ∷ b) h k =
    rw (cmp_names-cons false false x y a b)
      (ground (arith, cmp_names-recursed_name false false a b tt tt))

module _ {ℓ κ} {T : Type ℓ} {U : Type κ} ⦃t : MayRecurse T⦄ ⦃u : MayRecurse U⦄ where
  -- For entries of which no tree has a slash in its name, `cmp_path` is the byte order of the
  -- names, those of trees with a slash behind them.
  pub cmp_path-recursed_name :
      (a : WithPath T) (b : WithPath U)
      → TreeLacksSlash (t.may_recurse a.inner) a.path
      → TreeLacksSlash (u.may_recurse b.inner) b.path
      → cmp_path a b
        ≡ cmp
            (recursed_name (t.may_recurse a.inner) a.path)
            (recursed_name (u.may_recurse b.inner) b.path)
  unfolding cmp_path
  cmp_path-recursed_name a b h k =
      cmp_names-recursed_name (t.may_recurse a.inner) (u.may_recurse b.inner) a.path b.path h k
