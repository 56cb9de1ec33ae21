-- ===== src/Tests/ManifestHeads.antt =====
-- The heads of manifests, on a manifest with a parent.
use git_cinnabar.Common.{◌≡◌, refl, [], ◌∷◌, ◌⊎◌, ◌↔◌, Bytes, Option, some, codes, arith}
use git_cinnabar.Oid.{Oid, null_oid}
use git_cinnabar.Oid.Hex.{hex_crate}
use git_cinnabar.GitCommit.{Commit}
use git_cinnabar.GitCommit.RoundTrip.{IsCommit, commit_text, parse-commit_text}
use git_cinnabar.Store.Lines.{bstr}
use git_cinnabar.Store.Dag.Marks.{In}
use git_cinnabar.Store.ManifestHeads.{ManifestHeads, commit_of, add_head}
use git_cinnabar.Store.ManifestHeads.Order.{IsOrdered}
use git_cinnabar.Store.ManifestHeads.Members.{add_head-In}
use git_cinnabar.Tests.Ids.{some_oid, some_IsOid}

abbrev manifest : Commit
manifest = record {
  tree = some_oid;
  parents = some_oid ∷ [];
  author = codes "a";
  committer = codes "a";
  body = [];
}

manifest-IsCommit : IsCommit manifest
manifest-IsCommit = record {
  tree = some_IsOid;
  parents = (some_IsOid, tt);
  author = (ground arith, refl);
  committer = (ground arith, refl);
}

stored : Oid → Option Bytes
stored o = some (commit_text manifest)

manifest_read : commit_of hex_crate bstr stored null_oid ≡ some manifest
unfolding commit_of stored
manifest_read = parse-commit_text hex_crate bstr manifest manifest-IsCommit

add_head-In_example :
    (heads : ManifestHeads) × (add_head hex_crate bstr stored null_oid (some_oid ∷ []) ≡ some heads)
    × IsOrdered heads
    × ((x : Oid)
        → In x heads ↔ ((x ≡ null_oid) ⊎ (In x (some_oid ∷ []) × (¬ In x manifest.parents))))
add_head-In_example =
    add_head-In hex_crate bstr stored null_oid manifest (some_oid ∷ []) (tt, tt) manifest_read
