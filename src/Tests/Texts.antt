-- ===== src/Tests/Texts.antt =====
-- Splits, and differences of texts, on small inputs.
use git_cinnabar.Common.{◌≡◌, refl, List, [], ◌∷◌, Bytes, codes, concat, some, arith}
use git_cinnabar.Util.{split_once, split}
use git_cinnabar.Util.Splits.{join, split-join}
use git_cinnabar.Xdiff.{PatchInfo, Hunk, textdiff, apply}
use git_cinnabar.Xdiff.Apply.{Hunks, line_number, apply-textdiff}

abbrev a_lines : List Bytes
a_lines = codes "a;" ∷ codes "b;" ∷ codes "c;" ∷ []

abbrev b_lines : List Bytes
b_lines = codes "a;" ∷ codes "x;" ∷ codes "y;" ∷ codes "c;" ∷ []

-- The second line gives way to two.
abbrev hunks : List Hunk
hunks = record { old_begin = 2; old_nr = 1; new_begin = 2; new_nr = 2 } ∷ []

a_b_Hunks : Hunks 0 0 a_lines b_lines hunks
unfolding line_number
a_b_Hunks =
    Hunks.changed (codes "a;" ∷ []) (codes "b;" ∷ []) (codes "x;" ∷ codes "y;" ∷ [])
      (codes "c;" ∷ []) (codes "c;" ∷ []) _ [] refl refl refl refl (Hunks.same refl refl)

apply-textdiff_example :
    (patch : List PatchInfo) × (textdiff a_lines b_lines (concat b_lines) hunks ≡ some patch)
    × (apply patch (concat a_lines) ≡ some (concat b_lines))
apply-textdiff_example = apply-textdiff a_lines b_lines hunks a_b_Hunks

split-join_example :
    split b',' (join b',' (codes "a" ∷ codes "b" ∷ [])) ≡ codes "a" ∷ codes "b" ∷ []
split-join_example = split-join b',' (codes "a") (codes "b" ∷ []) (ground arith)

split_once_a : split_once b'=' (codes "a=b=c") ≡ some (codes "a", codes "b=c")
unfolding split_once
split_once_a = refl
