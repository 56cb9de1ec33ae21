-- ===== src/Xdiff.antt =====
-- src/xdiff.rs: patches, and the patches that the hunks of a line difference make. The library xdiff,
-- which finds the hunks, and the lines of the crate `bstr` are parameters.
pub mod Apply
use git_cinnabar.Common.{
  ℕ, zero, suc, ◌+◌, ◌-◌, Bool, ◌&&◌, List, [], ◌∷◌, ◌++◌, Bytes, Option, none, some, ◌>>=◌, ◌==◌,
  leb, if◌then◌else◌, get_elem?, length, take, drop,
}

pub record PatchInfo : Type 0 where
  pub start : ℕ
  pub end_pos : ℕ
  pub content : Bytes

-- `input[from..to]`; `none` is the panic of a range out of bounds.
unfoldable pub slice : Bytes → ℕ → ℕ → Option Bytes
slice input from to =
    if leb from to && leb to (length input) then some (take (to - from) (drop from input)) else none

-- The loop of `apply`.
unfoldable pub apply_from : ℕ → Bytes → List PatchInfo → Bytes → Option Bytes
apply_from last_end patched [] input = do
  last ← slice input last_end (length input)
  some (patched ++ last)
apply_from last_end patched (p ∷ patch) input = slice input last_end p.start >>= λ kept.
    apply_from p.end_pos ((patched ++ kept) ++ p.content) patch input

unfoldable pub apply : List PatchInfo → Bytes → Option Bytes
apply patch input = apply_from 0 [] patch input

scan : ℕ → List Bytes → List ℕ
scan off [] = []
scan off (l ∷ lines) = (off + length l) ∷ scan (off + length l) lines

-- `line_offsets`, of the lines with their terminators.
unfoldable pub line_offsets : List Bytes → List ℕ
unfolding scan
line_offsets lines = 0 ∷ 0 ∷ scan 0 lines

-- What `hunk_cb` is called with.
pub record Hunk : Type 0 where
  pub old_begin : ℕ
  pub old_nr : ℕ
  pub new_begin : ℕ
  pub new_nr : ℕ

-- A range of no lines stands behind the line it names.
begin_line : ℕ → ℕ → ℕ
begin_line first nr = if nr == 0 then first + 1 else first

-- `hunk_cb`: the patch that it pushes; `none` is a panic.
unfoldable pub hunk_cb : List ℕ → List ℕ → Bytes → Hunk → Option PatchInfo
unfolding begin_line
hunk_cb a_line_offsets b_line_offsets b h = do
  let old_begin = begin_line h.old_begin h.old_nr
  let new_begin = begin_line h.new_begin h.new_nr
  start ← get_elem? a_line_offsets old_begin
  end_pos ← get_elem? a_line_offsets (old_begin + h.old_nr)
  from ← get_elem? b_line_offsets new_begin
  to ← get_elem? b_line_offsets (new_begin + h.new_nr)
  content ← slice b from to
  some (record { start = start; end_pos = end_pos; content = content })

hunk_patches : List ℕ → List ℕ → Bytes → List Hunk → Option (List PatchInfo)
hunk_patches a_line_offsets b_line_offsets b [] = some []
hunk_patches a_line_offsets b_line_offsets b (h ∷ hunks) =
    hunk_cb a_line_offsets b_line_offsets b h >>= λ p.
    hunk_patches a_line_offsets b_line_offsets b hunks >>= λ patch. some (p ∷ patch)

-- `textdiff`, on the lines and the hunks.
unfoldable pub textdiff : List Bytes → List Bytes → Bytes → List Hunk → Option (List PatchInfo)
unfolding hunk_patches
textdiff a_lines b_lines b hunks =
    hunk_patches (line_offsets a_lines) (line_offsets b_lines) b hunks
