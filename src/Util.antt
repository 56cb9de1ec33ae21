-- ===== src/Util.antt =====
-- src/util.rs: splitting slices into an exact number of parts, and iterator adaptors. Below: the
-- numbers that the standard library parses and prints.
pub mod Splits
pub mod Number
pub mod Utf8
use git_cinnabar.Common.{
  ℕ, Bool, true, false, List, [], ◌∷◌, ◌++◌, Bytes, Option, none, some, ◌>>=◌, ◌==◌, if◌then◌else◌,
  ◌⊎◌, inl, inr,
}

-- The text before the first separator, and behind it.
unfoldable pub split_once : ℕ → Bytes → Option (Bytes × Bytes)
split_once sep [] = none
split_once sep (c ∷ cs) =
    let rest = split_once sep cs in
    if c == sep then some ([], cs) else do (a, b) ← rest; some (c ∷ a, b)

-- The text before the last separator, and behind it.
unfoldable pub rsplit_once : ℕ → Bytes → Option (Bytes × Bytes)
rsplit_once sep [] = none
rsplit_once sep (c ∷ cs) = elim (rsplit_once sep cs) [
  | some (a, b) ↦ some (c ∷ a, b)
  | none ↦ if c == sep then some ([], cs) else none
]

-- `splitn_exact` at `N = 2` and `N = 3`: `splitn` stops after `N - 1` separators, and an array that
-- is not filled is `None`.
unfoldable pub splitn_exact_2 : ℕ → Bytes → Option (Bytes × Bytes)
splitn_exact_2 = split_once

unfoldable pub splitn_exact_3 : ℕ → Bytes → Option (Bytes × Bytes × Bytes)
splitn_exact_3 sep s = do (a, r) ← split_once sep s; (b, c) ← split_once sep r; some (a, b, c)

-- `rsplitn_exact` at `N = 3`: from the right, and filled from the right.
unfoldable pub rsplitn_exact_3 : ℕ → Bytes → Option (Bytes × Bytes × Bytes)
rsplitn_exact_3 sep s = do (r, c) ← rsplit_once sep s; (a, b) ← rsplit_once sep r; some (a, b, c)

-- `slice::split`, with the part that is being read.
split_onto : ℕ → Bytes → Bytes → List Bytes
split_onto sep part [] = part ∷ []
split_onto sep part (c ∷ cs) = elim (c == sep) [
  | true ↦ part ∷ split_onto sep [] cs
  | false ↦ split_onto sep (part ++ c ∷ []) cs
]

unfoldable pub split : ℕ → Bytes → List Bytes
unfolding split_onto
split sep = split_onto sep []

module _ {ℓ κ} {A : Type ℓ} {B : Type κ} where
  -- `FilterMapWhile`, over all the items of the iterator: `inr true` stops, `inr false` skips.
  unfoldable pub filter_map_while : (A → B ⊎ Bool) → List A → List B
  filter_map_while f [] = []
  filter_map_while f (a ∷ rest) =
      let later = filter_map_while f rest in
      elim (f a) [ inl b ↦ b ∷ later | inr true ↦ [] | inr false ↦ later ]

-- `try_find_`: the first item that passes a test that may fail.
unfoldable pub try_find {ℓ κ} : {A : Type ℓ} {E : Type κ} → (A → Bool ⊎ E) → List A → Option A ⊎ E
try_find f [] = inl none
try_find f (a ∷ rest) =
    let later = try_find f rest in
    elim (f a) [ inl true ↦ inl (some a) | inl false ↦ later | inr e ↦ inr e ]
