-- ===== src/Store/ManifestHeads.antt =====
-- src/store.rs: `ManifestHeads`. The set of heads is the list of its ids upwards; the texts of commits
-- come from a parameter, and `none` is a panic.
pub mod Order
pub mod Members
use git_cinnabar.Common.{
  Bool, true, false, List, [], ◌∷◌, Bytes, Option, none, some, ◌>>=◌, if◌then◌else◌, is_empty, cmp,
  Ordering,
}
use git_cinnabar.Oid.{Oid}
use git_cinnabar.Oid.Hex.{HexCrate}
use git_cinnabar.GitCommit.{Commit, parse}
use git_cinnabar.Store.Lines.{Bstr}
use git_cinnabar.Store.Heads.{id_eq}

abbrev pub ManifestHeads : Type 0
ManifestHeads = List Oid

unfoldable pub insert_head : Oid → ManifestHeads → ManifestHeads
insert_head o [] = o ∷ []
insert_head o (p ∷ ps) =
    let later = insert_head o ps in
    elim (cmp o.raw p.raw) [
      | Ordering.lt ↦ o ∷ (p ∷ ps)
      | Ordering.eq ↦ p ∷ ps
      | Ordering.gt ↦ p ∷ later
    ]

unfoldable pub remove_head : Oid → ManifestHeads → ManifestHeads
remove_head o [] = []
remove_head o (p ∷ ps) = let later = remove_head o ps in if id_eq p o then ps else p ∷ later

unfoldable pub insert_all : List Oid → ManifestHeads → ManifestHeads
unfolding insert_head
insert_all [] heads = heads
insert_all (p ∷ ps) heads = insert_all ps (insert_head p heads)

unfoldable pub remove_all : List Oid → ManifestHeads → ManifestHeads
unfolding remove_head
remove_all [] heads = heads
remove_all (p ∷ ps) heads = remove_all ps (remove_head p heads)

module _ (hex : HexCrate) (b : Bstr) (raw : Oid → Option Bytes) where
  unfoldable pub commit_of : Oid → Option Commit
  unfolding parse
  commit_of o = raw o >>= parse hex b

  unfoldable pub from_metadata : Oid → Option ManifestHeads
  unfolding commit_of insert_all
  from_metadata cid = commit_of cid >>= λ c. some (insert_all c.parents [])

  -- `ManifestHeads::add`.
  unfoldable pub add_head : Oid → ManifestHeads → Option ManifestHeads
  unfolding commit_of remove_all insert_head
  add_head head heads = commit_of head >>= λ c. some (insert_head head (remove_all c.parents heads))
