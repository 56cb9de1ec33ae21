-- ===== src/Bundle/Diff/RoundTrip.antt =====
-- The patches that are iterated are the patches that were written (src/hg_bundle.rs).
use git_cinnabar.Common.{
  ℕ, zero, suc, ◌+◌, ◌^◌, ◌<◌, ◌≡◌, ◌≢◌, refl, ap, sym, ◌∙◌, false, List, [], ◌∷◌, ◌++◌, Bytes,
  some, >>=-eq-some, ltb, length, length-append, take-append, drop-append, append_assoc, ok, arith,
}
use git_cinnabar.Bundle.{write_u32, read_u32}
use git_cinnabar.Bundle.Chunk.{read_u32-write_u32}
use git_cinnabar.Bundle.Diff.{
  patch_header, create_chunk_data, diff_part, read_header, next, iter_diff,
}
use git_cinnabar.Xdiff.{PatchInfo}

-- A header that was written: its numbers are u32s.
patch_header-some :
    (p : PatchInfo) (header : Bytes)
    → patch_header p ≡ some header
    → (p.start < 2 ^ 32)
      × (p.end_pos < 2 ^ 32)
      × (length p.content < 2 ^ 32)
      × (header ≡ write_u32 p.start ++ (write_u32 p.end_pos ++ write_u32 (length p.content)))
unfolding patch_header
patch_header-some p header h = ground arith

not_short : (n m : ℕ) → ltb (n + m) n ≡ false
not_short n m = ground arith

diff_part-append :
    (p : PatchInfo) (rest : Bytes)
    → diff_part p.start p.end_pos (length p.content) (p.content ++ rest) ≡ ok (some (p, rest))
unfolding diff_part
diff_part-append p rest = rw (
  length-append p.content rest,
  not_short (length p.content) (length rest),
  take-append (length p.content) p.content rest refl,
  drop-append (length p.content) p.content rest refl,
)

read_header_lem :
    (text r1 r2 r3 : Bytes) (start end_pos len : ℕ)
    → read_u32 text ≡ some (start, r1)
    → read_u32 r1 ≡ some (end_pos, r2)
    → read_u32 r2 ≡ some (len, r3)
    → read_header text ≡ some (start, end_pos, len, r3)
unfolding read_header
read_header_lem text r1 r2 r3 start end_pos len e d f = rw (e, d, f)

next-cons :
    (text r1 r2 r3 : Bytes) (start end_pos len : ℕ)
    → text ≢ []
    → read_u32 text ≡ some (start, r1)
    → read_u32 r1 ≡ some (end_pos, r2)
    → read_u32 r2 ≡ some (len, r3)
    → next text ≡ diff_part start end_pos len r3
unfolding next
next-cons [] r1 r2 r3 start end_pos len ne e d f = absurd (ne refl)
next-cons (c ∷ text) r1 r2 r3 start end_pos len ne e d f =
    rw (read_header_lem (c ∷ text) r1 r2 r3 start end_pos len e d f, next)

write_u32-ne-nil : (n : ℕ) (rest : Bytes) → write_u32 n ++ rest ≢ []
unfolding write_u32
write_u32-ne-nil n rest = λ h. cc

next-written :
    (p : PatchInfo) (header rest : Bytes)
    → patch_header p ≡ some header
    → next (header ++ (p.content ++ rest)) ≡ ok (some (p, rest))
next-written p header rest h =
    let (a, b, c, e) = patch_header-some p header h in
    let behind = p.content ++ rest in
    rw
      (
        e,
        append_assoc (write_u32 p.start) (write_u32 p.end_pos ++ write_u32 (length p.content))
            behind,
        append_assoc (write_u32 p.end_pos) (write_u32 (length p.content)) behind,
      )
      (next-cons _ _ _ _ p.start p.end_pos (length p.content) (write_u32-ne-nil p.start _)
          (read_u32-write_u32 p.start _ a) (read_u32-write_u32 p.end_pos _ b)
          (read_u32-write_u32 (length p.content) behind c)
        ∙ diff_part-append p rest)

some-injective : {a b : Bytes} → some a ≡ some b → a ≡ b
some-injective h = cc

create_chunk_data-nil :
    (chunk_data : Bytes) → create_chunk_data [] ≡ some chunk_data → chunk_data ≡ []
unfolding create_chunk_data
create_chunk_data-nil chunk_data h = some-injective (sym h)

create_chunk_data-cons :
    (p : PatchInfo) (patch : List PatchInfo) (chunk_data : Bytes)
    → create_chunk_data (p ∷ patch) ≡ some chunk_data
    → (header : Bytes) × (rest : Bytes) × (patch_header p ≡ some header)
      × (create_chunk_data patch ≡ some rest)
      × (chunk_data ≡ header ++ (p.content ++ rest))
unfolding create_chunk_data
create_chunk_data-cons p patch chunk_data h =
    let (header, e, h1) = >>=-eq-some (patch_header p) _ h in
    let (rest, d, h2) = >>=-eq-some (create_chunk_data patch) _ h1 in
    (header, rest, e, d, some-injective (sym h2))

iter_diff-cons :
    (fuel : ℕ) (buf rest : Bytes) (p : PatchInfo) (patch : List PatchInfo)
    → next buf ≡ ok (some (p, rest))
    → iter_diff fuel rest ≡ ok patch
    → iter_diff (suc fuel) buf ≡ ok (p ∷ patch)
unfolding iter_diff
iter_diff-cons fuel buf rest p patch e d = rw (iter_diff, e, d)

iter_diff-nil : (fuel : ℕ) → iter_diff (suc fuel) [] ≡ ok []
unfolding iter_diff next
iter_diff-nil fuel = refl

-- The chunk data that was made of patches, all of whose numbers are u32s then, iterates to these
-- patches, with fuel that is more than their number.
pub iter_diff-create_chunk_data :
    (patch : List PatchInfo) (chunk_data : Bytes) (fuel : ℕ)
    → create_chunk_data patch ≡ some chunk_data
    → length patch < fuel
    → iter_diff fuel chunk_data ≡ ok patch
iter_diff-create_chunk_data patch chunk_data zero h k = absurd (omega arith)
iter_diff-create_chunk_data [] chunk_data (suc fuel) h k =
    rw (create_chunk_data-nil chunk_data h) (iter_diff-nil fuel)
iter_diff-create_chunk_data (p ∷ patch) chunk_data (suc fuel) h k =
    let (header, rest, e, d, text) = create_chunk_data-cons p patch chunk_data h in
    iter_diff-cons fuel chunk_data rest p patch (ap next text ∙ next-written p header rest e)
      (iter_diff-create_chunk_data patch rest fuel d (omega arith))
