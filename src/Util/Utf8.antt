-- ===== src/Util/Utf8.antt =====
-- `str::from_utf8` of the standard library, on which `FromBytes` (src/util.rs) calls `unwrap`.
use git_cinnabar.Common.{
  ℕ, Bool, true, false, ◌&&◌, List, [], ◌∷◌, Bytes, Option, none, some, leb, ltb, ◌==◌,
  if◌then◌else◌,
}

abbrev continuation : ℕ × ℕ
continuation = (128, 191)

-- The ranges of the bytes that a first byte wants behind it: no overlong sequence, no surrogate, and
-- nothing above the last code point.
wanted : ℕ → Option (List (ℕ × ℕ))
wanted b =
    if ltb b 128
    then some []
    else if leb 194 b && leb b 223
    then some (continuation ∷ [])
    else if b == 224
    then some ((160, 191) ∷ continuation ∷ [])
    else if b == 237
    then some ((128, 159) ∷ continuation ∷ [])
    else if leb 225 b && leb b 239
    then some (continuation ∷ continuation ∷ [])
    else if b == 240
    then some ((144, 191) ∷ continuation ∷ continuation ∷ [])
    else if leb 241 b && leb b 243
    then some (continuation ∷ continuation ∷ continuation ∷ [])
    else if b == 244
    then some ((128, 143) ∷ continuation ∷ continuation ∷ [])
    else none

utf8_from : List (ℕ × ℕ) → Bytes → Bool
unfolding wanted
utf8_from [] [] = true
utf8_from (range ∷ ranges) [] = false
utf8_from [] (b ∷ s) = elim (wanted b) [ none ↦ false | some ranges ↦ utf8_from ranges s ]
utf8_from (range ∷ ranges) (b ∷ s) = leb range.0 b && leb b range.1 && utf8_from ranges s

unfoldable pub is_utf8 : Bytes → Bool
unfolding utf8_from
is_utf8 s = utf8_from [] s
