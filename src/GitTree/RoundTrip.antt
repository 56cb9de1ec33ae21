-- ===== src/GitTree/RoundTrip.antt =====
-- A git tree reads back as `from_iter` wrote it (src/git/tree.rs).
use git_cinnabar.Common.{
  ℕ, zero, suc, ◌+◌, ◌-◌, ◌≤◌, ◌/◌, ◌%◌, ◌*◌, ◌^◌, ◌<◌, ◌≡◌, ◌≢◌, refl, ap, sym, ◌∙◌, List, [], ◌∷◌,
  ◌++◌, Bytes, All, All-map, Lacks, some, ◌==◌, inl, inr, Bool-cases, length, take-append,
  drop-append, append_assoc, length-append, is_empty, false, ltb, ok, arith,
}
use git_cinnabar.FileMode.{directory, typ}
use git_cinnabar.Oid.{Oid, from_raw_bytes, output_size}
use git_cinnabar.Oid.RoundTrip.{IsOid}
use git_cinnabar.Tree.{WithPath, with_path, unzip}
use git_cinnabar.Tree.Parse.{IsReadBack, entries, new, write_entries, entries-write_entries}
use git_cinnabar.Util.{splitn_exact_2}
use git_cinnabar.Util.Splits.{split_once-append}
use git_cinnabar.GitTree.{
  GitOid, TreeEntry, object_id, git_oid, tree_entry, parse_mode, parse_oid, parse_one_entry,
  octal_digits, mode_and_oid, from_entry, raw_tree,
}

parse_mode-cons :
    (m c : ℕ) (out : Bytes)
    → b'0' ≤ c
    → c ≤ b'7'
    → parse_mode m (c ∷ out) ≡ parse_mode (m * 8 % 2 ^ 16 + (c - b'0')) out
unfolding parse_mode
parse_mode-cons m c out h k = ground arith

-- One octal digit more.
parse_mode-digit :
    (n : ℕ) (out : Bytes)
    → n < 2 ^ 16
    → parse_mode (n / 8) ((b'0' + n % 8) ∷ out) ≡ parse_mode n out
parse_mode-digit n out h =
    let value : n / 8 * 8 % 2 ^ 16 + (b'0' + n % 8 - b'0') ≡ n = omega arith in
    parse_mode-cons (n / 8) (b'0' + n % 8) out (omega arith) (omega arith)
    ∙ ap (λ m. parse_mode m out) value

parse_mode-octal :
    (fuel n : ℕ) (out : Bytes)
    → n < fuel
    → n < 2 ^ 16
    → parse_mode 0 (octal_digits fuel n out) ≡ parse_mode n out
unfolding octal_digits
parse_mode-octal zero n out h k = absurd (omega arith)
parse_mode-octal (suc fuel) n out h k = elim (Bool-cases (n / 8 == 0)) [
  | inl last ↦ rw last (
      let top : n / 8 ≡ 0 = ground arith in
      ap (λ m. parse_mode m ((b'0' + n % 8) ∷ out)) (sym top) ∙ parse_mode-digit n out k)
  | inr more ↦ rw more (
      parse_mode-octal fuel (n / 8) ((b'0' + n % 8) ∷ out) (ground arith) (omega arith)
      ∙ parse_mode-digit n out k)
]

-- An entry of which the kind of the id is what the mode says; a tree is not one that is recursed into.
unfoldable pub IsTreeEntry : TreeEntry → Type 0
IsTreeEntry (inl tree_id) = IsOid tree_id
IsTreeEntry (inr entry) =
    IsOid (object_id entry.oid)
    × (entry.mode < 2 ^ 16)
    × (git_oid (object_id entry.oid) entry.mode ≡ entry.oid)
    × (typ entry.mode ≢ directory)

pub record IsGitEntry (e : WithPath TreeEntry) : Type 0 where
  pub entry : IsTreeEntry e.inner
  pub path : Lacks 0 e.path
  pub not_empty : e.path ≢ []

is_empty-false : (path : Bytes) → path ≢ [] → is_empty path ≡ false
is_empty-false [] h = absurd (h refl)
is_empty-false (c ∷ path) h = refl

mode_bound : (entry : TreeEntry) → IsTreeEntry entry → (mode_and_oid entry).0 < 2 ^ 16
unfolding mode_and_oid IsTreeEntry
mode_bound (inl tree_id) v = omega arith
mode_bound (inr entry) (_, k, _, _) = k

oid_size : (entry : TreeEntry) → IsTreeEntry entry → length (mode_and_oid entry).1.raw ≡ output_size
unfolding mode_and_oid IsTreeEntry
oid_size (inl tree_id) v = v.size
oid_size (inr entry) (v, _, _, _) = v.size

git_oid-ne-tree : (oid o : Oid) (mode : ℕ) → git_oid oid mode ≡ GitOid.tree o → typ mode ≡ directory
unfolding git_oid
git_oid-ne-tree oid o mode h = ground arith

tree_entry-git_oid :
    (oid : Oid) (mode : ℕ) (g : GitOid)
    → git_oid oid mode ≡ g
    → typ mode ≢ directory
    → tree_entry oid mode ≡ inr (record { oid = g; mode = mode })
unfolding tree_entry
tree_entry-git_oid oid mode (GitOid.blob o) h k = rw (h, tree_entry)
tree_entry-git_oid oid mode (GitOid.commit o) h k = rw (h, tree_entry)
tree_entry-git_oid oid mode (GitOid.tree o) h k = absurd (k (git_oid-ne-tree oid o mode h))

-- The entry is made again of its mode and its id.
tree_entry-mode_and_oid :
    (entry : TreeEntry)
    → IsTreeEntry entry
    → tree_entry (mode_and_oid entry).1 (mode_and_oid entry).0 ≡ entry
unfolding tree_entry mode_and_oid IsTreeEntry git_oid typ
tree_entry-mode_and_oid (inl tree_id) v = refl
tree_entry-mode_and_oid (inr entry) (_, _, same, not_tree) =
    tree_entry-git_oid (object_id entry.oid) entry.mode entry.oid same not_tree

not_short : (n : ℕ) → ltb (output_size + n) output_size ≡ false
not_short n = ground arith

from_raw_bytes-raw : (oid : Oid) → length oid.raw ≡ output_size → from_raw_bytes oid.raw ≡ some oid
unfolding from_raw_bytes
from_raw_bytes-raw oid size = rw size

parse_oid-raw :
    (mode : ℕ) (path rest : Bytes) (oid : Oid)
    → path ≢ []
    → length oid.raw ≡ output_size
    → parse_oid mode path (oid.raw ++ rest) ≡ ok (with_path path (tree_entry oid mode), rest)
unfolding parse_oid
parse_oid-raw mode path rest oid h size = rw (
  is_empty-false path h,
  length-append oid.raw rest,
  size,
  not_short (length rest),
  take-append output_size oid.raw rest size,
  from_raw_bytes-raw oid size,
  drop-append output_size oid.raw rest size,
)

octal-append :
    (fuel n : ℕ) (out rest : Bytes)
    → octal_digits fuel n out ++ rest ≡ octal_digits fuel n (out ++ rest)
unfolding octal_digits
octal-append zero n out rest = refl
octal-append (suc fuel) n out rest = elim (Bool-cases (n / 8 == 0)) [
  | inl last ↦ rw last refl
  | inr more ↦ rw more (octal-append fuel (n / 8) ((b'0' + n % 8) ∷ out) rest)
]

octal-ne-nil : (fuel n c : ℕ) (out : Bytes) → octal_digits fuel n (c ∷ out) ≢ []
unfolding octal_digits
octal-ne-nil zero n c out = λ h. cc
octal-ne-nil (suc fuel) n c out = elim (Bool-cases (n / 8 == 0)) [
  | inl last ↦ rw last (λ h. cc)
  | inr more ↦ rw more (octal-ne-nil fuel (n / 8) (b'0' + n % 8) (c ∷ out))
]

from_entry-ne-nil : (e : WithPath TreeEntry) → from_entry e ≢ []
unfolding from_entry unzip
from_entry-ne-nil e = octal-ne-nil (suc (mode_and_oid e.inner).0) (mode_and_oid e.inner).0 b' ' _

from_entry-append :
    (e : WithPath TreeEntry) (rest : Bytes)
    → from_entry e ++ rest
      ≡ octal_digits
          (suc (mode_and_oid e.inner).0)
          (mode_and_oid e.inner).0
          (b' ' ∷ (e.path ++ 0 ∷ ((mode_and_oid e.inner).1.raw ++ rest)))
unfolding from_entry unzip
from_entry-append e rest =
    octal-append (suc (mode_and_oid e.inner).0) (mode_and_oid e.inner).0 _ rest
    ∙ rw (append_assoc e.path (0 ∷ (mode_and_oid e.inner).1.raw) rest)

parse_mode-space : (mode : ℕ) (out : Bytes) → parse_mode mode (b' ' ∷ out) ≡ some (mode, out)
unfolding parse_mode
parse_mode-space mode out = refl

from_entry-IsReadBack : (e : WithPath TreeEntry) → IsGitEntry e → IsReadBack raw_tree from_entry e
unfolding raw_tree parse_one_entry splitn_exact_2 with_path
from_entry-IsReadBack e v = record {
  read_back = λ rest.
      let (mode, oid) = mode_and_oid e.inner in
      rw (
        from_entry-append e rest,
        parse_one_entry,
        parse_mode-octal (suc mode) mode (b' ' ∷ (e.path ++ 0 ∷ (oid.raw ++ rest))) (omega arith)
            (mode_bound e.inner v.entry),
        parse_mode-space mode (e.path ++ 0 ∷ (oid.raw ++ rest)),
        splitn_exact_2,
        split_once-append 0 e.path (oid.raw ++ rest) v.path,
        parse_oid-raw mode e.path rest oid v.not_empty (oid_size e.inner v.entry),
        tree_entry-mode_and_oid e.inner v.entry,
      );
  not_empty = from_entry-ne-nil e;
}

-- The entries that `from_iter` writes are the entries that the tree is read to, in order, where
-- each has an id of the kind that its mode says and a path that is not empty and has no zero byte,
-- and the fuel is more than their number.
pub from_iter_round_trip :
    (es : List (WithPath TreeEntry)) (fuel : ℕ)
    → All IsGitEntry es
    → length es < fuel
    → entries ⦃format = raw_tree⦄ fuel (new (write_entries from_entry es)) ≡ ok es
from_iter_round_trip es fuel v =
    entries-write_entries ⦃format = raw_tree⦄ from_entry es fuel
      (All-map IsGitEntry (IsReadBack raw_tree from_entry) from_entry-IsReadBack es v)
