-- ===== src/Store/Changeset/WholeDiffer.antt =====
-- A differ that makes one hunk of two texts: all the lines of the one for all those of the other.
use git_cinnabar.Common.{
  ℕ, ◌≡◌, refl, sym, Bool, true, false, List, [], ◌∷◌, Bytes, length, append-nil, ◌==◌,
  if◌then◌else◌, concat,
}
use git_cinnabar.Xdiff.{Hunk}
use git_cinnabar.Xdiff.Apply.{Hunks, line_number}
use git_cinnabar.Store.Changeset.{Differ}

unfoldable pub onto_first : ℕ → List Bytes → List Bytes
onto_first c [] = (c ∷ []) ∷ []
onto_first c (l ∷ ls) = (c ∷ l) ∷ ls

-- The lines with their newlines.
unfoldable pub lines_with_terminator : Bytes → List Bytes
lines_with_terminator [] = []
lines_with_terminator (c ∷ s) =
    let rest = lines_with_terminator s in if c == 10 then (c ∷ []) ∷ rest else onto_first c rest

concat-onto_first : (c : ℕ) (ls : List Bytes) → concat (onto_first c ls) ≡ c ∷ concat ls
unfolding onto_first concat
concat-onto_first c [] = refl
concat-onto_first c (l ∷ ls) = refl

concat-if :
    (b : Bool) (c : ℕ) (ls : List Bytes)
    → concat (if b then (c ∷ []) ∷ ls else onto_first c ls) ≡ c ∷ concat ls
concat-if true c ls = unfold concat in refl
concat-if false c ls = concat-onto_first c ls

pub concat-lines_with_terminator : (t : Bytes) → concat (lines_with_terminator t) ≡ t
unfolding lines_with_terminator
concat-lines_with_terminator [] = unfold concat in refl
concat-lines_with_terminator (c ∷ s) =
    rw (concat-if (c == 10) c (lines_with_terminator s), concat-lines_with_terminator s)

unfoldable pub whole_hunk : List Bytes → List Bytes → List Hunk
whole_hunk a b =
    record {
      old_begin = line_number 0 (length a);
      old_nr = length a;
      new_begin = line_number 0 (length b);
      new_nr = length b;
    }
    ∷ []

pub whole_hunk-Hunks : (a b : List Bytes) → Hunks 0 0 a b (whole_hunk a b)
unfolding whole_hunk
whole_hunk-Hunks a b =
    Hunks.changed [] a b [] [] _ [] refl (sym (append-nil a)) (sym (append-nil b)) refl
      (Hunks.same refl refl)

unfoldable pub whole_differ : Differ
whole_differ = record {
  lines = lines_with_terminator;
  hunks = whole_hunk;
  concat_lines = concat-lines_with_terminator;
  hunks_stand = whole_hunk-Hunks;
}
