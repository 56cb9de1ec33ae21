-- ===== src/Store/Tags/Merge.antt =====
-- What `TagSet::merge` does with each tag (src/store.rs).
use git_cinnabar.Common.{
  ◌≡◌, refl, ap, sym, ◌∙◌, true, false, [], ◌∷◌, Bytes, All, Option, none, some, bytes_eq,
  bytes_eq_iff, bytes_eq_refl, Bool-cases, inl, inr,
}
use git_cinnabar.Store.Tags.{Tag, TagSet, find, upsert, merge_all, merge, updated}
use git_cinnabar.Store.Tags.Histories.{Merged, updated-IsMerged}
use git_cinnabar.Store.Tags.Keys.{Other, IsTagSet, upsert-here, upsert-later, merge_all-IsTagSet}

-- One tag, of this set and of the other one.
abbrev pub merged : Option Tag → Option Tag → Option Tag
merged none a = a
merged (some b) none = some b
merged (some b) (some a) = some (updated a b)

abbrev pub put : (Tag → Tag) → Tag → Option Tag → Tag
put change fresh none = fresh
put change fresh (some t) = change t

module _ (tag k : Bytes) (t : Tag) (rest : TagSet) where
  find_here : bytes_eq k tag ≡ true → find tag ((k, t) ∷ rest) ≡ some t
  unfolding find
  find_here e = rw (find, e)

  find_later : bytes_eq k tag ≡ false → find tag ((k, t) ∷ rest) ≡ find tag rest
  unfolding find
  find_later e = rw (find, e)

find-nil : (tag : Bytes) → find tag [] ≡ none
unfolding find
find-nil tag = refl

upsert-nil :
    (tag : Bytes) (change : Tag → Tag) (fresh : Tag)
    → upsert tag change fresh [] ≡ (tag, fresh) ∷ []
unfolding upsert
upsert-nil tag change fresh = refl

merged-none : (o : Option Tag) → merged o none ≡ o
merged-none none = refl
merged-none (some b) = refl

put-merged : (a : Tag) (o : Option Tag) → some (put (updated a) a o) ≡ merged o (some a)
put-merged a none = refl
put-merged a (some b) = refl

find-upsert_same :
    (tag : Bytes) (change : Tag → Tag) (fresh : Tag) (tags : TagSet)
    → find tag (upsert tag change fresh tags) ≡ some (put change fresh (find tag tags))
find-upsert_same tag change fresh [] =
    ap (find tag) (upsert-nil tag change fresh)
    ∙ find_here tag tag fresh [] (bytes_eq_refl tag)
    ∙ sym (ap (λ o. some (put change fresh o)) (find-nil tag))
find-upsert_same tag change fresh ((j, t) ∷ rest) = elim (Bool-cases (bytes_eq j tag)) [
  | inl e ↦ rw (
    upsert-here tag change fresh j t rest e,
    find_here tag j (change t) rest e,
    find_here tag j t rest e,
  )
  | inr e ↦
      rw
        (
          upsert-later tag change fresh j t rest e,
          find_later tag j t (upsert tag change fresh rest) e,
          find_later tag j t rest e,
        )
        (find-upsert_same tag change fresh rest)
]

find-upsert_other :
    (tag k : Bytes) (change : Tag → Tag) (fresh : Tag) (tags : TagSet)
    → bytes_eq k tag ≡ false
    → find tag (upsert k change fresh tags) ≡ find tag tags
find-upsert_other tag k change fresh [] ne =
    ap (find tag) (upsert-nil k change fresh) ∙ find_later tag k fresh [] ne
find-upsert_other tag k change fresh ((j, t) ∷ rest) ne = elim (Bool-cases (bytes_eq j k)) [
  | inl e ↦
      let apart : bytes_eq j tag ≡ false = rw ((bytes_eq_iff j k).0 e) ne in
      rw (
        upsert-here k change fresh j t rest e,
        find_later tag j (change t) rest apart,
        find_later tag j t rest apart,
      )
  | inr e ↦ elim (Bool-cases (bytes_eq j tag)) [
    | inl s ↦ rw (
      upsert-later k change fresh j t rest e,
      find_here tag j t (upsert k change fresh rest) s,
      find_here tag j t rest s,
    )
    | inr s ↦
        rw
          (
            upsert-later k change fresh j t rest e,
            find_later tag j t (upsert k change fresh rest) s,
            find_later tag j t rest s,
          )
          (find-upsert_other tag k change fresh rest ne)
  ]
]

find-Other : (tag : Bytes) (tags : TagSet) → All (Other tag) tags → find tag tags ≡ none
find-Other tag [] h = unfold find in refl
find-Other tag ((k, t) ∷ rest) (h, hs) = find_later tag k t rest h ∙ find-Other tag rest hs

find-merge_all :
    (tag : Bytes) (other tags : TagSet)
    → IsTagSet other
    → find tag (merge_all other tags) ≡ merged (find tag tags) (find tag other)
unfolding merge_all
find-merge_all tag [] tags v = rw (find-nil tag) (sym (merged-none (find tag tags)))
find-merge_all tag ((k, a) ∷ other) tags (h, _, v) = elim (Bool-cases (bytes_eq k tag)) [
  | inl e ↦
      let same : k ≡ tag = (bytes_eq_iff k tag).0 e in
      let none_left : find tag other ≡ none = find-Other tag other (rw (← same) h) in
      let here : find tag (upsert k (updated a) a tags) ≡ some (put (updated a) a (find tag tags)) =
        rw (same) (find-upsert_same tag (updated a) a tags) in
      find-merge_all tag other (upsert k (updated a) a tags) v
      ∙ rw (here, none_left, find_here tag k a other e) (put-merged a (find tag tags))
  | inr e ↦
      find-merge_all tag other (upsert k (updated a) a tags) v
      ∙ rw (find-upsert_other tag k (updated a) a tags e, find_later tag k a other e)
]

find-merge_lem :
    (tags other : TagSet) (tag : Bytes)
    → IsTagSet other
    → find tag (merge tags other) ≡ merged (find tag tags) (find tag other)
unfolding merge
find-merge_lem [] other tag w = unfold find in refl
find-merge_lem (t ∷ tags) other tag w = find-merge_all tag other (t ∷ tags) w

merged-Merged : (b a : Option Tag) → Merged b a (merged b a)
merged-Merged none a = refl
merged-Merged (some b) none = refl
merged-Merged (some b) (some a) = (updated a b, refl, updated-IsMerged b a)

pub merge-IsTagSet :
    (tags other : TagSet) → IsTagSet tags → IsTagSet other → IsTagSet (merge tags other)
unfolding merge
merge-IsTagSet [] other v w = w
merge-IsTagSet (t ∷ tags) other v w = merge_all-IsTagSet other (t ∷ tags) w v

-- Of two sets, in each of which no tag stands twice and no node twice in the history of a tag, the
-- merged set is another such set, and holds these tags: a tag that only one of them has is kept as it
-- is. A tag of both keeps its node of this set if that is not the one of the other set, this set's
-- history of the tag has the node of the other set, and the history in the other set either lacks this
-- set's node or is shorter than this set's; in all other cases it gets the node of the other set. Its
-- history has the nodes of both histories and no others.
pub find-merge :
    (tags other : TagSet)
    → IsTagSet tags
    → IsTagSet other
    → IsTagSet (merge tags other)
      × ((tag : Bytes) → Merged (find tag tags) (find tag other) (find tag (merge tags other)))
find-merge tags other v w = (
  merge-IsTagSet tags other v w,
  λ tag. rw (find-merge_lem tags other tag w) (merged-Merged (find tag tags) (find tag other)),
)
