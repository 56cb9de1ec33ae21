-- ===== src/Tests/RawTrees.antt =====
-- Manifests and git trees in their raw form, on small inputs.
use git_cinnabar.Common.{◌≡◌, refl, List, [], ◌∷◌, All, codes, inl, inr, ok, panic, ◌++◌, arith}
use git_cinnabar.FileMode.{typ}
use git_cinnabar.GitTree.{GitOid, TreeEntry, raw_tree, from_entry, git_oid, object_id}
use git_cinnabar.GitTree.RoundTrip.{IsGitEntry, IsTreeEntry, from_iter_round_trip}
use git_cinnabar.Manifest.{
  HgFileAttr, ManifestEntry, raw_hg_manifest, parse_one_entry, write_one_entry,
}
use git_cinnabar.Manifest.RoundTrip.{IsManifestEntry, manifest_round_trip}
use git_cinnabar.Oid.{null_oid, from_str}
use git_cinnabar.Util.Utf8.{is_utf8}
use git_cinnabar.Util.{split_once, splitn_exact_2}
use git_cinnabar.Oid.Hex.{hex_crate}
use git_cinnabar.Oid.RoundTrip.{IsOid}
use git_cinnabar.Tree.{WithPath}
use git_cinnabar.Tree.Parse.{entries, new, write_entries}

null_IsOid : IsOid null_oid
null_IsOid = record { bytes = ground arith; size = refl }

abbrev files : List (WithPath ManifestEntry)
files =
    record { path = codes "a"; inner = record { fid = null_oid; attr = HgFileAttr.executable } }
    ∷ record {
      path = codes "b/c";
      inner = record { fid = null_oid; attr = HgFileAttr.regular_file };
    }
    ∷ []

files-IsManifestEntry : All IsManifestEntry files
files-IsManifestEntry = (
  record { fid = null_IsOid; path = ground arith },
  (record { fid = null_IsOid; path = ground arith }, tt),
)

manifest_round_trip_example :
    entries ⦃format = raw_hg_manifest hex_crate⦄ 3 (new (write_entries write_one_entry files))
    ≡ ok files
manifest_round_trip_example =
    manifest_round_trip hex_crate files 3 files-IsManifestEntry (omega arith)

-- Bytes that are no text are no error where an id is read, they panic.
not_utf8 :
    parse_one_entry hex_crate
      (codes "a" ++ 0 ∷ 0xc0 ∷ codes "000000000000000000000000000000000000000\n")
    ≡ panic
unfolding parse_one_entry hex_crate from_str is_utf8 splitn_exact_2 split_once
not_utf8 = refl

abbrev tree_entries : List (WithPath TreeEntry)
tree_entries =
    record { path = codes "a"; inner = inl null_oid }
    ∷ record {
      path = codes "b";
      inner = inr (record { oid = GitOid.blob null_oid; mode = 0o100644 });
    }
    ∷ []

blob_IsTreeEntry : IsTreeEntry (inr (record { oid = GitOid.blob null_oid; mode = 0o100644 }))
unfolding git_oid object_id typ IsTreeEntry
blob_IsTreeEntry = (null_IsOid, omega arith, refl, λ h. omega arith)

tree_IsTreeEntry : IsTreeEntry (inl null_oid)
unfolding IsTreeEntry
tree_IsTreeEntry = null_IsOid

tree_entries-IsGitEntry : All IsGitEntry tree_entries
tree_entries-IsGitEntry = (
  record { entry = tree_IsTreeEntry; path = ground arith; not_empty = λ h. cc },
  (record { entry = blob_IsTreeEntry; path = ground arith; not_empty = λ h. cc }, tt),
)

from_iter_round_trip_example :
    entries ⦃format = raw_tree⦄ 3 (new (write_entries from_entry tree_entries)) ≡ ok tree_entries
from_iter_round_trip_example =
    from_iter_round_trip tree_entries 3 tree_entries-IsGitEntry (omega arith)
