-- ===== src/Tree/Parse.antt =====
-- src/tree_util.rs: trees in their raw form, `ParseTree` and `TreeIter`.
use git_cinnabar.Common.{
  ℕ, zero, suc, ◌-◌, ◌<◌, ◌≡◌, ◌≢◌, refl, sym, ◌∙◌, List, [], ◌∷◌, ◌++◌, Bytes, Option, none, some,
  length, drop, length-append, drop-append, append_assoc, All, Outcome, ok, error, panic, arith,
}
use git_cinnabar.Tree.{WithPath}

pub record ParseTree {ℓ} (T : Type ℓ) : Type ℓ where
  -- The entry at the start of the buffer, and what is behind it.
  pub parse_one_entry : Bytes → Outcome (WithPath T × Bytes)

pub record TreeIter : Type 0 where
  pub tree : Bytes
  pub remaining : ℕ

unfoldable pub new : Bytes → TreeIter
new tree = record { tree = tree; remaining = length tree }

module _ {ℓ} {T : Type ℓ} ⦃format : ParseTree T⦄ where
  -- An entry that does not parse is unwrapped: a panic.
  next_in : Bytes → Bytes → Outcome (Option (WithPath T × TreeIter))
  next_in tree [] = ok none
  next_in tree (c ∷ buf) = elim (ParseTree.parse_one_entry format (c ∷ buf)) [
    | ok (entry, rest) ↦ ok (some (entry, record { tree = tree; remaining = length rest }))
    | error ↦ panic
    | panic ↦ panic
  ]

  unfoldable pub next : TreeIter → Outcome (Option (WithPath T × TreeIter))
  unfolding next_in
  next iter = next_in iter.tree (drop (length iter.tree - iter.remaining) iter.tree)

  -- The entries up to the end; `error` is fuel that was not enough.
  unfoldable pub entries : ℕ → TreeIter → Outcome (List (WithPath T))
  unfolding next
  entries zero iter = error
  entries (suc fuel) iter = elim (next iter) [
    | ok none ↦ ok []
    | ok (some (entry, later)) ↦ elim (entries fuel later) [
      | ok rest ↦ ok (entry ∷ rest)
      | error ↦ error
      | panic ↦ panic
    ]
    | error ↦ error
    | panic ↦ panic
  ]

-- The entries, written one behind the other.
unfoldable pub write_entries {ℓ} : {T : Type ℓ} → (WithPath T → Bytes) → List (WithPath T) → Bytes
write_entries write [] = []
write_entries write (e ∷ es) = write e ++ write_entries write es

-- The entries of a type that are read back as they were written.
pub record IsReadBack {ℓ} {T : Type ℓ} (format : ParseTree T) (write : WithPath T → Bytes)
    (e : WithPath T) : Type ℓ where
  pub read_back : (rest : Bytes) → format.parse_one_entry (write e ++ rest) ≡ ok (e, rest)
  pub not_empty : write e ≢ []

drop-seen : (seen buf : Bytes) → drop (length (seen ++ buf) - length buf) (seen ++ buf) ≡ buf
drop-seen seen buf =
    drop-append (length (seen ++ buf) - length buf) seen buf (omega (arith, length-append seen buf))

append-ne-nil : (xs ys : Bytes) → xs ≢ [] → xs ++ ys ≢ []
append-ne-nil [] ys h = absurd (h refl)
append-ne-nil (x ∷ xs) ys h = λ e. cc

module _ {ℓ} {T : Type ℓ} ⦃format : ParseTree T⦄ where
  next_in-written :
      (tree rest text : Bytes) (e : WithPath T)
      → format.parse_one_entry text ≡ ok (e, rest)
      → text ≢ []
      → next_in tree text ≡ ok (some (e, record { tree = tree; remaining = length rest }))
  unfolding next_in
  next_in-written tree rest [] e h ne = absurd (ne refl)
  next_in-written tree rest (c ∷ text) e h ne = rw (h, next_in)

module _ {ℓ} {T : Type ℓ} ⦃format : ParseTree T⦄ (write : WithPath T → Bytes) where
  entries-from :
      (tree seen : Bytes) (es : List (WithPath T)) (fuel : ℕ)
      → All (IsReadBack format write) es
      → tree ≡ seen ++ write_entries write es
      → length es < fuel
      → entries fuel (record { tree = tree; remaining = length (write_entries write es) }) ≡ ok es
  unfolding entries write_entries next
  entries-from tree seen es zero v h k = absurd (omega arith)
  entries-from tree seen [] (suc fuel) v h k =
      let at_end : drop (length tree - 0) tree ≡ [] = rw h (drop-seen seen []) in
      rw (at_end, next_in, entries, next)
  entries-from tree seen (e ∷ es) (suc fuel) (v, vs) h k =
      let written = write e in
      let at_e : drop (length tree - length (written ++ write_entries write es)) tree
          ≡ written ++ write_entries write es =
        rw h (drop-seen seen (written ++ write_entries write es)) in
      let rest =
        entries-from tree (seen ++ written) es fuel vs (h ∙ sym (append_assoc seen written _))
          (omega arith) in
      rw (
        at_e,
        entries,
        next,
        next_in-written tree (write_entries write es) _ e (v.read_back _)
            (append-ne-nil written _ v.not_empty),
        rest,
      )

  -- The entries that were written, one behind the other, are the entries that are read, where each
  -- is read back as it was written.
  pub entries-write_entries :
      (es : List (WithPath T)) (fuel : ℕ)
      → All (IsReadBack format write) es
      → length es < fuel
      → entries fuel (new (write_entries write es)) ≡ ok es
  unfolding new
  entries-write_entries es fuel v h = entries-from (write_entries write es) [] es fuel v refl h
