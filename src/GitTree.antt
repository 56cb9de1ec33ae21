-- ===== src/GitTree.antt =====
-- src/git/mod.rs, src/git/tree.rs and src/cinnabar/manifest.rs: git trees, and the git trees that
-- hold a Mercurial manifest.
pub mod RoundTrip
use git_cinnabar.Common.{
  ℕ, zero, suc, ◌+◌, ◌-◌, ◌*◌, ◌/◌, ◌%◌, ◌^◌, Bool, true, false, ◌&&◌, List, [], ◌∷◌, ◌++◌, Bytes,
  Option, none, some, ◌>>=◌, ◌==◌, ltb, leb, if◌then◌else◌, is_empty, length, take, drop, ◌⊎◌, inl,
  inr, Outcome, ok, error, panic,
}
use git_cinnabar.FileMode.{directory, gitlink, rw_mode, rwx_mode, none_mode, typ, perms}
use git_cinnabar.Manifest.{HgFileAttr, ManifestEntry}
use git_cinnabar.Oid.{Oid, from_raw_bytes, output_size}
use git_cinnabar.Tree.{WithPath, MayRecurse, with_path, unzip}
use git_cinnabar.Tree.Parse.{ParseTree}
use git_cinnabar.Util.{splitn_exact_2}

pub data GitOid : Type 0 where
  blob : Oid → GitOid
  tree : Oid → GitOid
  commit : Oid → GitOid

-- `From<GitOid> for GitObjectId`.
unfoldable pub object_id : GitOid → Oid
object_id (blob o) = o
object_id (tree o) = o
object_id (commit o) = o

-- `From<(GitObjectId, FileMode)> for GitOid`.
unfoldable pub git_oid : Oid → ℕ → GitOid
git_oid oid mode =
    if typ mode == gitlink then commit oid else if typ mode == directory then tree oid else blob oid

pub record RecursedTreeEntry : Type 0 where
  pub oid : GitOid
  pub mode : ℕ

-- `Either<TreeId, RecursedTreeEntry>`.
abbrev pub TreeEntry : Type 0
TreeEntry = Oid ⊎ RecursedTreeEntry

unfoldable pub is_left {ℓ κ} : {A : Type ℓ} {B : Type κ} → A ⊎ B → Bool
is_left (inl a) = true
is_left (inr b) = false

instance pub tree_may_recurse : MayRecurse TreeEntry
tree_may_recurse = record { may_recurse = is_left }

-- The mode, of 16 bits, and what is behind its space; a mode that the buffer ends in has no rest.
unfoldable pub parse_mode : ℕ → Bytes → Option (ℕ × Bytes)
parse_mode mode [] = some (mode, [])
parse_mode mode (b ∷ bytes) =
    let rest = parse_mode (mode * 8 % 2 ^ 16 + (b - b'0')) bytes in
    if b == b' ' then some (mode, bytes) else if leb b'0' b && leb b b'7' then rest else none

tree_entry : Oid → ℕ → TreeEntry
tree_entry oid mode = elim (git_oid oid mode) [
  | tree tree_id ↦ inl tree_id
  | blob o ↦ inr (record { oid = blob o; mode = mode })
  | commit o ↦ inr (record { oid = commit o; mode = mode })
]

-- Behind the path: the id, of which `split_at` panics if the buffer is too short.
parse_oid : ℕ → Bytes → Bytes → Outcome (WithPath TreeEntry × Bytes)
unfolding tree_entry
parse_oid mode path remainder =
    if is_empty path
    then error
    else if ltb (length remainder) output_size
    then panic
    else elim (from_raw_bytes (take output_size remainder)) [
      | none ↦ panic
      | some oid ↦ ok (with_path path (tree_entry oid mode), drop output_size remainder)
    ]

unfoldable pub parse_one_entry : Bytes → Outcome (WithPath TreeEntry × Bytes)
unfolding parse_oid
parse_one_entry buf = elim (parse_mode 0 buf) [
  | none ↦ error
  | some (mode, bytes) ↦ elim (splitn_exact_2 0 bytes) [
    | none ↦ error
    | some (path, remainder) ↦ parse_oid mode path remainder
  ]
]

unfoldable pub raw_tree : ParseTree TreeEntry
raw_tree = record { parse_one_entry = parse_one_entry }

-- The octal digits of a number: the fuel is one more than the number, which has no more digits.
octal_digits : ℕ → ℕ → Bytes → Bytes
octal_digits zero n out = out
octal_digits (suc fuel) n out =
    let rest = octal_digits fuel (n / 8) ((b'0' + n % 8) ∷ out) in
    if n / 8 == 0 then (b'0' + n % 8) ∷ out else rest

mode_and_oid : TreeEntry → ℕ × Oid
mode_and_oid (inl tree_id) = (directory, tree_id)
mode_and_oid (inr entry) = (entry.mode, object_id entry.oid)

-- One step of `from_iter`.
unfoldable pub from_entry : WithPath TreeEntry → Bytes
unfolding octal_digits mode_and_oid
from_entry e =
    let (path, entry) = unzip e in
    let (mode, oid) = mode_and_oid entry in
    octal_digits (suc mode) mode (b' ' ∷ (path ++ 0 ∷ oid.raw))

-- `GitManifestTreeEntry`.
abbrev pub GitManifestTreeEntry : Type 0
GitManifestTreeEntry = Oid ⊎ ManifestEntry

-- The attribute of a file in a manifest tree; the type is asserted, and `die!` ends the program.
unfoldable pub manifest_attr : ℕ → Outcome HgFileAttr
manifest_attr mode =
    if typ mode == gitlink
    then if perms mode == rw_mode
      then ok HgFileAttr.regular_file
      else if perms mode == rwx_mode
      then ok HgFileAttr.executable
      else if perms mode == none_mode
      then ok HgFileAttr.symbolic_link
      else panic
    else panic

manifest_tree_entry : TreeEntry → Outcome GitManifestTreeEntry
manifest_tree_entry (inl tree_id) = ok (inl tree_id)
manifest_tree_entry (inr entry) = elim (manifest_attr entry.mode) [
  | ok attr ↦ ok (inr (record { fid = object_id entry.oid; attr = attr }))
  | error ↦ error
  | panic ↦ panic
]

-- Behind the first byte of the path; a path is not empty.
manifest_entry : Bytes → TreeEntry → Bytes → Outcome (WithPath GitManifestTreeEntry × Bytes)
unfolding manifest_tree_entry
manifest_entry [] item rest = panic
manifest_entry (c ∷ path) item rest = elim (manifest_tree_entry item) [
  | ok inner ↦ ok (with_path path inner, rest)
  | error ↦ error
  | panic ↦ panic
]

unfoldable pub parse_manifest_entry : Bytes → Outcome (WithPath GitManifestTreeEntry × Bytes)
unfolding manifest_entry
parse_manifest_entry buf = elim (parse_one_entry buf) [
  | ok (entry, rest) ↦ manifest_entry (unzip entry).0 (unzip entry).1 rest
  | error ↦ error
  | panic ↦ panic
]

unfoldable pub git_manifest_tree : ParseTree GitManifestTreeEntry
git_manifest_tree = record { parse_one_entry = parse_manifest_entry }
