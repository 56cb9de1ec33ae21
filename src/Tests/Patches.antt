-- ===== src/Tests/Patches.antt =====
-- Patches of changesets, on small texts.
use git_cinnabar.Common.{◌≡◌, [], ◌∷◌, Bytes, List, some, codes, arith}
use git_cinnabar.Xdiff.{PatchInfo, apply}
use git_cinnabar.Store.Patch.{common_prefix, common_suffix, shrink_all}
use git_cinnabar.Store.Patch.Shrink.{IsFit, apply-shrink_all}

abbrev old_text : Bytes
old_text = codes "abcd;xax;"

-- The first line gets a letter, the second line as well.
abbrev first_patch : PatchInfo
first_patch = record { start = 0; end_pos = 5; content = codes "abXcd;" }

abbrev second_patch : PatchInfo
second_patch = record { start = 5; end_pos = 9; content = codes "xaax;" }

old_text-IsFit : IsFit old_text 0 (first_patch ∷ second_patch ∷ [])
unfolding IsFit common_prefix common_suffix
old_text-IsFit = ground arith

-- Of the second patch both ends are in common, and they overlap in the old text.
apply-shrink_all_example :
    (qs : List PatchInfo) × (shrink_all old_text (first_patch ∷ second_patch ∷ []) ≡ some qs)
    × (apply qs old_text ≡ apply (first_patch ∷ second_patch ∷ []) old_text)
apply-shrink_all_example =
    apply-shrink_all old_text (first_patch ∷ second_patch ∷ []) old_text-IsFit
