-- ===== src/Xdiff/Apply.antt =====
-- A text with the patches of a difference applied is the other text (src/xdiff.rs).
use git_cinnabar.Common.{
  ℕ, suc, ◌+◌, ◌-◌, ◌≤◌, ◌≡◌, All, refl, ap, sym, ◌∙◌, List, [], ◌∷◌, ◌++◌, Bytes, Option, some,
  ◌==◌, le→leb, if◌then◌else◌, get_elem?, length, length-append, take-append, drop-append,
  append_assoc, append-nil, concat, concat-append, arith,
}
use git_cinnabar.Xdiff.{
  PatchInfo, slice, apply_from, apply, scan, line_offsets, Hunk, begin_line, hunk_cb, hunk_patches,
  textdiff,
}

-- The first line of a range as xdiff numbers it, from 1, and one less for a range of no lines.
unfoldable pub line_number : ℕ → ℕ → ℕ
line_number before nr = if nr == 0 then before else before + 1

-- Hunks that stand for the difference of the lines `a` and `b`, where `i` and `j` lines went before:
-- lines in common, lines of `a` that give way to lines of `b`, and the hunks behind them.
pub data Hunks : ℕ → ℕ → List Bytes → List Bytes → List Hunk → Type 0 where
  same : {i j : ℕ} {a b : List Bytes} {hunks : List Hunk} → hunks ≡ [] → a ≡ b → Hunks i j a b hunks
  changed :
      {i j : ℕ} {a b : List Bytes} {hunks : List Hunk} (common old new a_rest b_rest : List Bytes)
      (h : Hunk) (rest : List Hunk)
      → hunks ≡ h ∷ rest
      → a ≡ common ++ (old ++ a_rest)
      → b ≡ common ++ (new ++ b_rest)
      → h ≡ record {
        old_begin = line_number (i + length common) (length old);
        old_nr = length old;
        new_begin = line_number (j + length common) (length new);
        new_nr = length new;
      }
      → Hunks (i + length common + length old) (j + length common + length new) a_rest b_rest rest
      → Hunks i j a b hunks

slice-middle :
    (x y z : Bytes) (from to : ℕ)
    → from ≡ length x
    → to ≡ length x + length y
    → slice (x ++ (y ++ z)) from to ≡ some y
unfolding slice
slice-middle x y z from to e d =
    let size : length (x ++ (y ++ z)) ≡ length x + (length y + length z) =
      length-append x (y ++ z) ∙ ap (λ n. length x + n) (length-append y z) in
    let len : to - from ≡ length y = omega arith in
    rw (
      le→leb from to (omega arith),
      size,
      le→leb to (length x + (length y + length z)) (omega arith),
      len,
      drop-append from x (y ++ z) (sym e),
      take-append (length y) y z refl,
    )

begin_line-line_number : (before nr : ℕ) → begin_line (line_number before nr) nr ≡ suc before
unfolding begin_line line_number
begin_line-line_number before nr = ground arith

-- The offset of a line is the length of the lines before it.
scan-offset :
    (off : ℕ) (xs ys : List Bytes)
    → get_elem? (off ∷ scan off (xs ++ ys)) (length xs) ≡ some (off + length (concat xs))
unfolding scan concat
scan-offset off [] ys = ap some (omega arith)
scan-offset off (x ∷ xs) ys =
    scan-offset (off + length x) xs ys ∙ ap some (omega (arith, length-append x (concat xs)))

zero_plus : (n : ℕ) → 0 + n ≡ n
zero_plus n = omega arith

line_offsets-offset :
    (lines xs ys : List Bytes) (n : ℕ)
    → lines ≡ xs ++ ys
    → n ≡ suc (length xs)
    → get_elem? (line_offsets lines) n ≡ some (length (concat xs))
unfolding line_offsets
line_offsets-offset lines xs ys n e d =
    rw d (
      ap (λ l. get_elem? (0 ∷ scan 0 l) (length xs)) e
      ∙ scan-offset 0 xs ys
      ∙ ap some (zero_plus _))

append_ranges :
    (done common rest : List Bytes) → done ++ (common ++ rest) ≡ (done ++ common) ++ rest
append_ranges done common rest = sym (append_assoc done common rest)

-- A hunk behind `i` and `j` lines: its patch takes the place of the old lines with the new ones.
hunk_cb-patch :
    (a_lines b_lines a_before old a_rest b_before new b_rest : List Bytes) (h : Hunk)
    → a_lines ≡ a_before ++ (old ++ a_rest)
    → b_lines ≡ b_before ++ (new ++ b_rest)
    → h ≡ record {
      old_begin = line_number (length a_before) (length old);
      old_nr = length old;
      new_begin = line_number (length b_before) (length new);
      new_nr = length new;
    }
    → hunk_cb (line_offsets a_lines) (line_offsets b_lines) (concat b_lines) h
      ≡ some (record {
        start = length (concat a_before);
        end_pos = length (concat a_before) + length (concat old);
        content = concat new;
      })
unfolding hunk_cb
hunk_cb-patch a_lines b_lines a_before old a_rest b_before new b_rest h e d k =
    let offset-end : (lines before mid rest : List Bytes)
        → lines ≡ before ++ (mid ++ rest)
        → get_elem? (line_offsets lines) (suc (length before) + length mid)
          ≡ some (length (concat before) + length (concat mid)) =
      λ lines before mid rest eq.
        line_offsets-offset lines (before ++ mid) rest _ (eq ∙ append_ranges before mid rest)
          (omega (arith, length-append before mid))
        ∙ ap some (rw (concat-append before mid) (length-append (concat before) (concat mid))) in
    let text : concat b_lines ≡ concat b_before ++ (concat new ++ concat b_rest) =
      ap concat d
      ∙ concat-append b_before (new ++ b_rest)
      ∙ ap (λ t. concat b_before ++ t) (concat-append new b_rest) in
    rw (
      k,
      begin_line-line_number (length a_before) (length old),
      begin_line-line_number (length b_before) (length new),
      line_offsets-offset a_lines a_before (old ++ a_rest) (suc (length a_before)) e refl,
      offset-end a_lines a_before old a_rest e,
      line_offsets-offset b_lines b_before (new ++ b_rest) (suc (length b_before)) d refl,
      offset-end b_lines b_before new b_rest d,
      text,
      slice-middle (concat b_before) (concat new) (concat b_rest) _ _ refl refl,
    )

-- A patch of a part of the text.
abbrev pub InText : Bytes → PatchInfo → Type 0
InText text p = (p.start ≤ p.end_pos) × (p.end_pos ≤ length text)

range-InText :
    (a_lines a_before old a_rest : List Bytes) (content : Bytes)
    → a_lines ≡ a_before ++ (old ++ a_rest)
    → InText (concat a_lines) (record {
      start = length (concat a_before);
      end_pos = length (concat a_before) + length (concat old);
      content = content;
    })
range-InText a_lines a_before old a_rest content e =
    let size : length (concat a_lines)
        ≡ length (concat a_before) + (length (concat old) + length (concat a_rest)) =
      ap length (ap concat e ∙ concat-append a_before (old ++ a_rest))
      ∙ length-append (concat a_before) (concat (old ++ a_rest))
      ∙ ap (λ n. length (concat a_before) + n)
          (ap length (concat-append old a_rest) ∙ length-append (concat old) (concat a_rest)) in
    (omega arith, omega arith)

-- What is left to apply once `a_before` has been dealt with.
Applied : List Bytes → List Bytes → List Bytes → Option (List PatchInfo) → Type 0
Applied a_lines a_before b patches =
    (patch : List PatchInfo) × (patches ≡ some patch)
    × All (InText (concat a_lines)) patch
    × ((patched : Bytes)
        → apply_from (length (concat a_before)) patched patch (concat a_lines)
          ≡ some (patched ++ concat b))

apply_from-last :
    (a_lines a_before a : List Bytes) (patched : Bytes)
    → a_lines ≡ a_before ++ a
    → apply_from (length (concat a_before)) patched [] (concat a_lines) ≡ some (patched ++ concat a)
unfolding apply_from
apply_from-last a_lines a_before a patched e =
    let text : concat a_lines ≡ concat a_before ++ (concat a ++ []) =
      ap concat e
      ∙ concat-append a_before a
      ∙ ap (λ t. concat a_before ++ t) (sym (append-nil (concat a))) in
    let size : length (concat a_lines) ≡ length (concat a_before) + length (concat a) =
      ap length (ap concat e ∙ concat-append a_before a)
      ∙ length-append (concat a_before) (concat a) in
    rw (size, text, slice-middle (concat a_before) (concat a) [] _ _ refl refl)

apply_from-patch :
    (a_lines a_before common old a_rest b : List Bytes) (content patched : Bytes)
    (patch : List PatchInfo)
    → a_lines ≡ a_before ++ (common ++ (old ++ a_rest))
    → apply_from
        (length (concat ((a_before ++ common) ++ old)))
        ((patched ++ concat common) ++ content)
        patch
        (concat a_lines)
      ≡ some (((patched ++ concat common) ++ content) ++ concat b)
    → apply_from
        (length (concat a_before))
        patched
        (record {
          start = length (concat (a_before ++ common));
          end_pos = length (concat (a_before ++ common)) + length (concat old);
          content = content;
        }
          ∷ patch)
        (concat a_lines)
      ≡ some (((patched ++ concat common) ++ content) ++ concat b)
unfolding apply_from
apply_from-patch a_lines a_before common old a_rest b content patched patch e later =
    let text : concat a_lines ≡ concat a_before ++ (concat common ++ concat (old ++ a_rest)) =
      ap concat e
      ∙ concat-append a_before (common ++ (old ++ a_rest))
      ∙ ap (λ t. concat a_before ++ t) (concat-append common (old ++ a_rest)) in
    let start_at : length (concat (a_before ++ common))
        ≡ length (concat a_before) + length (concat common) =
      ap length (concat-append a_before common) ∙ length-append (concat a_before) (concat common) in
    let end_at : length (concat ((a_before ++ common) ++ old))
        ≡ length (concat (a_before ++ common)) + length (concat old) =
      ap length (concat-append (a_before ++ common) old)
      ∙ length-append (concat (a_before ++ common)) (concat old) in
    let kept : slice (concat a_lines) (length (concat a_before))
          (length (concat (a_before ++ common)))
        ≡ some (concat common) =
      ap (λ t. slice t (length (concat a_before)) (length (concat (a_before ++ common)))) text
      ∙ slice-middle (concat a_before) (concat common) (concat (old ++ a_rest)) _ _ refl start_at in
    rw (kept, ← end_at) later

changed_text :
    (patched : Bytes) (common new b_rest b : List Bytes)
    → b ≡ common ++ (new ++ b_rest)
    → ((patched ++ concat common) ++ concat new) ++ concat b_rest ≡ patched ++ concat b
changed_text patched common new b_rest b e = rw (
  e,
  concat-append common (new ++ b_rest),
  concat-append new b_rest,
  append_assoc (patched ++ concat common) (concat new) (concat b_rest),
  append_assoc patched (concat common) (concat new ++ concat b_rest),
)

hunk_patches-Applied :
    (a_lines b_lines a_before b_before a b : List Bytes) (hunks : List Hunk) (i j : ℕ)
    → a_lines ≡ a_before ++ a
    → b_lines ≡ b_before ++ b
    → i ≡ length a_before
    → j ≡ length b_before
    → Hunks i j a b hunks
    → Applied a_lines a_before b
        (hunk_patches (line_offsets a_lines) (line_offsets b_lines) (concat b_lines) hunks)
unfolding hunk_patches Applied
hunk_patches-Applied a_lines b_lines a_before b_before a b hunks i j ea eb ei ej
      (Hunks.same none_left eq) =
    rw (none_left, ← eq) ([], refl, tt, λ patched. apply_from-last a_lines a_before a patched ea)
hunk_patches-Applied a_lines b_lines a_before b_before a b hunks i j ea eb ei ej
      (Hunks.changed common old new a_rest b_rest h rest first sa sb range later) =
    let ea' : a_lines ≡ (a_before ++ common) ++ (old ++ a_rest) =
      ea ∙ ap (λ t. a_before ++ t) sa ∙ append_ranges a_before common (old ++ a_rest) in
    let eb' : b_lines ≡ (b_before ++ common) ++ (new ++ b_rest) =
      eb ∙ ap (λ t. b_before ++ t) sb ∙ append_ranges b_before common (new ++ b_rest) in
    let size_a : i + length common ≡ length (a_before ++ common) =
      omega (arith, length-append a_before common) in
    let size_b : j + length common ≡ length (b_before ++ common) =
      omega (arith, length-append b_before common) in
    let (patch, e, inside, applied) =
      hunk_patches-Applied a_lines b_lines ((a_before ++ common) ++ old)
        ((b_before ++ common) ++ new) a_rest b_rest rest _ _
        (ea' ∙ append_ranges (a_before ++ common) old a_rest)
        (eb' ∙ append_ranges (b_before ++ common) new b_rest)
        (omega (arith, length-append (a_before ++ common) old))
        (omega (arith, length-append (b_before ++ common) new)) later in
    let patched_here =
      hunk_cb-patch a_lines b_lines (a_before ++ common) old a_rest (b_before ++ common) new b_rest
        h ea' eb' (rw (← size_a, ← size_b) range) in
    rw (first, patched_here, e)
      (
        _,
        refl,
        (range-InText a_lines (a_before ++ common) old a_rest (concat new) ea', inside),
        λ patched.
            apply_from-patch a_lines a_before common old a_rest b_rest (concat new) patched patch
              (ea ∙ ap (λ t. a_before ++ t) sa) (applied ((patched ++ concat common) ++ concat new))
            ∙ ap some (changed_text patched common new b_rest b sb),
      )

pub textdiff-InText :
    (a_lines b_lines : List Bytes) (hunks : List Hunk)
    → Hunks 0 0 a_lines b_lines hunks
    → (patch : List PatchInfo) × (textdiff a_lines b_lines (concat b_lines) hunks ≡ some patch)
      × All (InText (concat a_lines)) patch
unfolding textdiff Applied concat
textdiff-InText a_lines b_lines hunks h =
    let (patch, e, inside, _) =
      hunk_patches-Applied a_lines b_lines [] [] a_lines b_lines hunks 0 0 refl refl refl refl h in
    (patch, e, inside)

-- Whatever hunks stand for the difference of two lists of lines, no index is out of bounds in making
-- patches of them, and the patches turn the first text into the second.
pub apply-textdiff :
    (a_lines b_lines : List Bytes) (hunks : List Hunk)
    → Hunks 0 0 a_lines b_lines hunks
    → (patch : List PatchInfo) × (textdiff a_lines b_lines (concat b_lines) hunks ≡ some patch)
      × (apply patch (concat a_lines) ≡ some (concat b_lines))
unfolding textdiff apply Applied concat
apply-textdiff a_lines b_lines hunks h =
    let (patch, e, _, applied) =
      hunk_patches-Applied a_lines b_lines [] [] a_lines b_lines hunks 0 0 refl refl refl refl h in
    (patch, e, applied [])
