-- ===== src/Store/Tags.antt =====
-- src/store.rs: `TagSet`. The `IndexMap` is a list of tags in the order in which they came, a `HashSet`
-- of ids a list without an id twice; `none` is an error.
pub mod Merge
pub mod Histories
pub mod Keys
use git_cinnabar.Common.{
  ℕ, Bool, true, false, not, ◌&&◌, ◌||◌, List, [], ◌∷◌, ◌++◌, Bytes, Option, none, some, ◌>>=◌,
  ◌==◌, if◌then◌else◌, is_empty, bytes_eq, length, ltb, reverse,
}
use git_cinnabar.Util.{splitn_exact_2}
use git_cinnabar.Oid.{Oid, is_null, from_str}
use git_cinnabar.Oid.Hex.{HexCrate}
use git_cinnabar.Store.Lines.{Bstr}
use git_cinnabar.Store.Heads.{id_eq}

-- The node of a tag, and the nodes that it had.
pub record Tag : Type 0 where
  pub node : Oid
  pub hist : List Oid

abbrev pub TagSet : Type 0
TagSet = List (Bytes × Tag)

unfoldable pub contains : Oid → List Oid → Bool
contains o [] = false
contains o (p ∷ ps) = id_eq p o || contains o ps

abbrev pub hist_insert : Oid → List Oid → List Oid
hist_insert o ps = if contains o ps then ps else ps ++ o ∷ []

unfoldable pub extend : List Oid → List Oid → List Oid
unfolding contains
extend ps [] = ps
extend ps (o ∷ os) = extend (hist_insert o ps) os

unfoldable pub find : Bytes → TagSet → Option Tag
find tag [] = none
find tag ((k, t) ∷ rest) = let later = find tag rest in if bytes_eq k tag then some t else later

-- `entry(tag).and_modify(change).or_insert(fresh)`.
unfoldable pub upsert : Bytes → (Tag → Tag) → Tag → TagSet → TagSet
upsert tag change fresh [] = (tag, fresh) ∷ []
upsert tag change fresh ((k, t) ∷ rest) =
    let later = upsert tag change fresh rest in
    if bytes_eq k tag then (k, change t) ∷ rest else (k, t) ∷ later

abbrev pub is_ascii_whitespace : ℕ → Bool
is_ascii_whitespace c = c == 32 || (c == 9 || (c == 10 || (c == 12 || c == 13)))

unfoldable pub trim_start : Bytes → Bytes
trim_start [] = []
trim_start (c ∷ s) = let rest = trim_start s in if is_ascii_whitespace c then rest else c ∷ s

unfoldable pub trim : Bytes → Bytes
unfolding trim_start
trim s = reverse (trim_start (reverse (trim_start s)))

-- The node of a tag that comes again goes to its history.
abbrev pub renew : Oid → Tag → Tag
renew node t = record { node = node; hist = hist_insert t.node t.hist }

unfoldable pub from_lines : HexCrate → List Bytes → TagSet → Option TagSet
unfolding splitn_exact_2 from_str upsert trim contains
from_lines hex [] tags = some tags
from_lines hex (line ∷ lines) tags = elim (is_empty line) [
  | true ↦ from_lines hex lines tags
  | false ↦ splitn_exact_2 b' ' line >>= λ parts. from_str hex parts.0 >>= λ node.
      from_lines hex lines
        (upsert (trim parts.1) (renew node) (record { node = node; hist = [] }) tags)
]

-- `TagSet::from_buf`.
unfoldable pub from_buf : HexCrate → Bstr → Bytes → Option TagSet
unfolding from_lines
from_buf hex b buf = from_lines hex (b.lines buf) []

-- The test of `_updatetags`: whether the node stays.
unfoldable pub stays : Tag → Tag → Bool
unfolding contains
stays a b =
    not (id_eq b.node a.node)
    && contains a.node b.hist
    && (not (contains b.node a.hist) || ltb (length a.hist) (length b.hist))

abbrev pub updated : Tag → Tag → Tag
updated a b = record { node = if stays a b then b.node else a.node; hist = extend b.hist a.hist }

unfoldable pub merge_all : TagSet → TagSet → TagSet
unfolding upsert stays extend
merge_all [] tags = tags
merge_all ((tag, a) ∷ other) tags = merge_all other (upsert tag (updated a) a tags)

-- `TagSet::merge`.
unfoldable pub merge : TagSet → TagSet → TagSet
unfolding merge_all
merge [] other = other
merge (t ∷ tags) other = merge_all other (t ∷ tags)

abbrev pub unless_null : Tag → Option Oid
unless_null t = if is_null t.node then none else some t.node

-- `TagSet::get`.
unfoldable pub get : Bytes → TagSet → Option Oid
unfolding find
get tag tags = find tag tags >>= unless_null

unfoldable pub ever_contained : Bytes → TagSet → Bool
unfolding find
ever_contained tag tags = elim (find tag tags) [ none ↦ false | some t ↦ true ]

-- `TagSet::iter`.
unfoldable pub iter : TagSet → List (Bytes × Oid)
iter [] = []
iter ((tag, t) ∷ rest) = if is_null t.node then iter rest else (tag, t.node) ∷ iter rest
