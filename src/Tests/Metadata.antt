-- ===== src/Tests/Metadata.antt =====
-- Metadata of changesets, on small inputs.
use git_cinnabar.Common.{◌≡◌, refl, [], ◌∷◌, none, some, All, codes, cmp, bytes_eq, arith}
use git_cinnabar.Oid.Hex.{hex_crate}
use git_cinnabar.Store.Lines.{bstr}
use git_cinnabar.Store.Metadata.{GitChangesetMetadata, parse, serialize}
use git_cinnabar.Store.Metadata.RoundTrip.{IsMetadata, parse-serialize}
use git_cinnabar.Store.Metadata.Extra.{ChangesetExtra, get, unset, from, dump_into}
use git_cinnabar.Store.Metadata.Extra.Laws.{IsOrdered}
use git_cinnabar.Store.Metadata.Extra.RoundTrip.{IsItem, from-dump_into}
use git_cinnabar.Tests.Ids.{some_oid, some_IsOid}

abbrev metadata : GitChangesetMetadata
metadata = record {
  changeset_id = some_oid;
  manifest_id = some_oid;
  author = some (codes "A B <a@b>");
  extra = some (codes "branch:stable");
  files = some (codes "x");
  patch = none;
}

metadata-IsMetadata : IsMetadata metadata
metadata-IsMetadata = record {
  changeset = some_IsOid;
  manifest = some_IsOid;
  author = (ground arith, refl);
  extra = (ground arith, refl);
  files = (ground arith, refl);
  patch = tt;
}

parse-serialize_example : parse hex_crate bstr (serialize metadata) ≡ some metadata
parse-serialize_example = parse-serialize hex_crate bstr metadata metadata-IsMetadata

abbrev extra : ChangesetExtra
extra = (codes "branch", codes "stable") ∷ (codes "close", codes "1") ∷ []

extra-IsOrdered : IsOrdered extra
unfolding cmp
extra-IsOrdered = ((refl, tt), (tt, tt))

extra_items : All IsItem extra
extra_items = ground arith

from-dump_into_example : from (dump_into extra []) ≡ some extra
from-dump_into_example = from-dump_into extra extra-IsOrdered extra_items

closed : get (codes "close") (unset (codes "branch") extra) ≡ some (codes "1")
unfolding get unset bytes_eq
closed = refl
