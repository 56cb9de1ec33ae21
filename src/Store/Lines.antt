-- ===== src/Store/Lines.antt =====
-- What src/store.rs relies on of `ByteSlice::lines` of the crate `bstr`: a line ends at a newline,
-- which is not part of it, nor is a carriage return before that.
use git_cinnabar.Common.{
  ℕ, ◌≡◌, refl, true, false, List, [], ◌∷◌, ◌++◌, Bytes, Lacks, All, ◌==◌, if◌then◌else◌, arith,
  append-nil, append_assoc,
}
use git_cinnabar.Util.Splits.{join}

abbrev pub newline : ℕ
newline = 10

abbrev pub trim_cr : Bytes → Bytes
trim_cr [] = []
trim_cr (c ∷ []) = if c == 13 then [] else c ∷ []
trim_cr (c ∷ (d ∷ l)) = c ∷ trim_cr (d ∷ l)

pub record Bstr : Type 0 where
  pub lines : Bytes → List Bytes
  pub lines_nil : lines [] ≡ []
  pub lines_line :
      (l rest : Bytes) → Lacks newline l → lines (l ++ newline ∷ rest) ≡ trim_cr l ∷ lines rest
  pub lines_last : (c : ℕ) (l : Bytes) → Lacks newline (c ∷ l) → lines (c ∷ l) ≡ (c ∷ l) ∷ []

-- A line that is read back as it was written: not empty, without a newline, and without a carriage
-- return at its end.
abbrev pub IsLine : Bytes → Type 0
IsLine [] = ⊥
IsLine (c ∷ l) = Lacks newline (c ∷ l) × (trim_cr (c ∷ l) ≡ c ∷ l)

pub lines-join :
    (b : Bstr) (l : Bytes) (ls : List Bytes)
    → All IsLine (l ∷ ls)
    → b.lines (join newline (l ∷ ls)) ≡ l ∷ ls
lines-join b [] ls (h, _) = absurd h
lines-join b (c ∷ l) [] ((lacks, _), _) = b.lines_last c l lacks
lines-join b (c ∷ l) (l2 ∷ ls) ((lacks, trim), h) =
    rw (b.lines_line (c ∷ l) (join newline (l2 ∷ ls)) lacks, lines-join b l2 ls h, trim)

-- The crate as a function, with the line that is being read.
pub lines_onto : Bytes → Bytes → List Bytes
lines_onto [] [] = []
lines_onto (p ∷ part) [] = (p ∷ part) ∷ []
lines_onto part (c ∷ rest) = elim (c == newline) [
  | true ↦ trim_cr part ∷ lines_onto [] rest
  | false ↦ lines_onto (part ++ c ∷ []) rest
]

pub lines_onto-Lacks :
    (part l rest : Bytes)
    → Lacks newline l
    → lines_onto part (l ++ newline ∷ rest) ≡ trim_cr (part ++ l) ∷ lines_onto [] rest
unfolding lines_onto
lines_onto-Lacks part [] rest h = rw (append-nil)
lines_onto-Lacks part (c ∷ l) rest (h, hs) =
    ground (arith, lines_onto-Lacks (part ++ c ∷ []) l rest hs, append_assoc part (c ∷ []) l)

pub lines_onto-end :
    (part : Bytes) (c : ℕ) (l : Bytes)
    → Lacks newline (c ∷ l)
    → lines_onto part (c ∷ l) ≡ (part ++ c ∷ l) ∷ []
unfolding lines_onto
lines_onto-end part c (d ∷ l) (h, hs) =
    ground (arith, lines_onto-end (part ++ c ∷ []) d l hs, append_assoc part (c ∷ []) (d ∷ l))
lines_onto-end [] c [] (h, _) = ground (arith)
lines_onto-end (p ∷ part) c [] (h, _) = ground (arith)

abbrev pub bstr : Bstr
unfolding lines_onto
bstr = record {
  lines = lines_onto [];
  lines_nil = refl;
  lines_line = lines_onto-Lacks [];
  lines_last = lines_onto-end [];
}
