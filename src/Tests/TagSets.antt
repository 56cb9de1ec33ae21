-- ===== src/Tests/TagSets.antt =====
-- Sets of tags, on small inputs.
use git_cinnabar.Common.{◌≡◌, refl, [], ◌∷◌, Bytes, none, some, codes, bytes_eq}
use git_cinnabar.Oid.{null_oid, is_null}
use git_cinnabar.Store.Tags.{TagSet, find, merge, get}
use git_cinnabar.Store.Dag.Sorted.{Distinct}
use git_cinnabar.Store.Tags.Histories.{Merged}
use git_cinnabar.Store.Tags.Keys.{IsTagSet}
use git_cinnabar.Store.Tags.Merge.{find-merge}
use git_cinnabar.Tests.Ids.{some_oid}

-- Two sets with a tag in common, whose old node the second set has.
abbrev older : TagSet
older = (codes "v1", record { node = some_oid; hist = [] }) ∷ []

abbrev newer : TagSet
newer =
    (codes "v2", record { node = some_oid; hist = [] })
    ∷ (codes "v1", record { node = null_oid; hist = some_oid ∷ [] })
    ∷ []

older-IsTagSet : IsTagSet older
unfolding Distinct
older-IsTagSet = (tt, tt, tt)

newer-IsTagSet : IsTagSet newer
unfolding bytes_eq Distinct
newer-IsTagSet = ((refl, tt), tt, (tt, (λ m. m, tt), tt))

find-merge_example :
    IsTagSet (merge older newer)
    × ((tag : Bytes) → Merged (find tag older) (find tag newer) (find tag (merge older newer)))
find-merge_example = find-merge older newer older-IsTagSet newer-IsTagSet

-- The tag is gone, since its new node is null.
tag_removed :
    (get (codes "v1") (merge older newer) ≡ none)
    × (get (codes "v2") (merge older newer) ≡ some some_oid)
unfolding get merge bytes_eq is_null
tag_removed = (refl, refl)
