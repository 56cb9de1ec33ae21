-- ===== src/Store/Tags/Keys.antt =====
-- No tag stands in a set twice, and no node in the history of one (src/store.rs).
use git_cinnabar.Common.{
  ℕ, ◌≡◌, refl, sym, ◌∙◌, true, false, List, [], ◌∷◌, Bytes, All, some, >>=-eq-some, some-eq,
  bytes_eq, bytes_eq_iff, Bool-cases, inl, inr,
}
use git_cinnabar.Util.{splitn_exact_2}
use git_cinnabar.Oid.{Oid, from_str}
use git_cinnabar.Oid.Hex.{HexCrate}
use git_cinnabar.Store.Lines.{Bstr}
use git_cinnabar.Store.Dag.Sorted.{Distinct}
use git_cinnabar.Store.Tags.Histories.{extend-Distinct, hist_insert-Distinct}
use git_cinnabar.Store.Tags.{
  Tag, TagSet, upsert, trim, renew, from_lines, from_buf, merge_all, updated,
}

abbrev pub Other : Bytes → Bytes × Tag → Type 0
Other k e = bytes_eq e.0 k ≡ false

-- Every tag is another than those behind it, and no node stands in its history twice.
abbrev pub IsTagSet : TagSet → Type 0
IsTagSet [] = Unit
IsTagSet (e ∷ rest) = All (Other e.0) rest × Distinct e.1.hist × IsTagSet rest

bytes_eq-sym_false : (a b : Bytes) → bytes_eq a b ≡ false → bytes_eq b a ≡ false
bytes_eq-sym_false a b h = elim (Bool-cases (bytes_eq b a)) [
  | inr e ↦ e
  | inl e ↦ let same = (bytes_eq_iff a b).1 (sym ((bytes_eq_iff b a).0 e)) in cc
]

module _ (tag : Bytes) (change : Tag → Tag) (fresh : Tag) (k : Bytes) (t : Tag)
    (rest : TagSet) where
  pub upsert-here :
      bytes_eq k tag ≡ true → upsert tag change fresh ((k, t) ∷ rest) ≡ (k, change t) ∷ rest
  unfolding upsert
  upsert-here e = rw (upsert, e)

  pub upsert-later :
      bytes_eq k tag ≡ false
      → upsert tag change fresh ((k, t) ∷ rest) ≡ (k, t) ∷ upsert tag change fresh rest
  unfolding upsert
  upsert-later e = rw (upsert, e)

upsert-Other :
    (tag k : Bytes) (change : Tag → Tag) (fresh : Tag) (tags : TagSet)
    → bytes_eq tag k ≡ false
    → All (Other k) tags
    → All (Other k) (upsert tag change fresh tags)
upsert-Other tag k change fresh [] ne h = unfold upsert in (ne, tt)
upsert-Other tag k change fresh ((j, t) ∷ rest) ne (h, hs) = elim (Bool-cases (bytes_eq j tag)) [
  | inl e ↦ rw (upsert-here tag change fresh j t rest e) (h, hs)
  | inr e ↦
      rw (upsert-later tag change fresh j t rest e) (h, upsert-Other tag k change fresh rest ne hs)
]

upsert-IsTagSet :
    (tag : Bytes) (change : Tag → Tag) (fresh : Tag) (tags : TagSet)
    → ((t : Tag) → Distinct t.hist → Distinct (change t).hist)
    → Distinct fresh.hist
    → IsTagSet tags
    → IsTagSet (upsert tag change fresh tags)
upsert-IsTagSet tag change fresh [] keeps d v = unfold upsert in (tt, d, tt)
upsert-IsTagSet tag change fresh ((j, t) ∷ rest) keeps d (h, d', v) =
    elim (Bool-cases (bytes_eq j tag)) [
      | inl e ↦ rw (upsert-here tag change fresh j t rest e) (h, keeps t d', v)
      | inr e ↦ rw (upsert-later tag change fresh j t rest e) (
        upsert-Other tag j change fresh rest (bytes_eq-sym_false j tag e) h,
        d',
        upsert-IsTagSet tag change fresh rest keeps d v,
      )
    ]

pub merge_all-IsTagSet :
    (other tags : TagSet) → IsTagSet other → IsTagSet tags → IsTagSet (merge_all other tags)
unfolding merge_all
merge_all-IsTagSet [] tags w v = v
merge_all-IsTagSet ((tag, a) ∷ other) tags (_, d, w) v =
    merge_all-IsTagSet other (upsert tag (updated a) a tags) w
      (upsert-IsTagSet tag (updated a) a tags (λ t. extend-Distinct t.hist a.hist) d v)

renew-Distinct : (node : Oid) (t : Tag) → Distinct t.hist → Distinct (renew node t).hist
renew-Distinct node t d = hist_insert-Distinct t.node t.hist d

fresh-Distinct : Distinct {A = Oid} []
unfolding Distinct
fresh-Distinct = tt

from_lines-skip :
    (hex : HexCrate) (lines : List Bytes) (tags : TagSet)
    → from_lines hex ([] ∷ lines) tags ≡ from_lines hex lines tags
unfolding from_lines
from_lines-skip hex lines tags = refl

from_lines-line :
    (hex : HexCrate) (c : ℕ) (line : Bytes) (lines : List Bytes) (tags tags' : TagSet)
    → from_lines hex ((c ∷ line) ∷ lines) tags ≡ some tags'
    → (tag : Bytes) × (node : Oid) × (from_lines hex lines
          (upsert tag (renew node) (record { node = node; hist = [] }) tags)
        ≡ some tags')
unfolding from_lines
from_lines-line hex c line lines tags tags' h =
    let (parts, cut, h1) = >>=-eq-some (splitn_exact_2 b' ' (c ∷ line)) _ h in
    let (node, read, h2) = >>=-eq-some (from_str hex parts.0) _ h1 in (trim parts.1, node, h2)

from_lines-IsTagSet :
    (hex : HexCrate) (lines : List Bytes) (tags tags' : TagSet)
    → IsTagSet tags
    → from_lines hex lines tags ≡ some tags'
    → IsTagSet tags'
from_lines-IsTagSet hex [] tags tags' v h =
    let same : tags ≡ tags' = some-eq (unfold from_lines in h) in rw (← same) v
from_lines-IsTagSet hex ([] ∷ lines) tags tags' v h =
    from_lines-IsTagSet hex lines tags tags' v (sym (from_lines-skip hex lines tags) ∙ h)
from_lines-IsTagSet hex ((c ∷ line) ∷ lines) tags tags' v h =
    let (tag, node, h') = from_lines-line hex c line lines tags tags' h in
    from_lines-IsTagSet hex lines (upsert tag (renew node) (record { node = node; hist = [] }) tags)
      tags'
      (upsert-IsTagSet tag (renew node) (record { node = node; hist = [] }) tags
        (renew-Distinct node) fresh-Distinct v)
      h'

-- No tag stands twice in the set that `from_buf` reads, and no node in the history of a tag.
pub from_buf-IsTagSet :
    (hex : HexCrate) (b : Bstr) (buf : Bytes) (tags : TagSet)
    → from_buf hex b buf ≡ some tags
    → IsTagSet tags
unfolding from_buf
from_buf-IsTagSet hex b buf tags h = from_lines-IsTagSet hex (b.lines buf) [] tags tt h
