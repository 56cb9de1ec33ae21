-- ===== src/Bundle/Part/Read.antt =====
-- The reader of a part gives the data of its chunks, and leaves what is behind them (src/hg_bundle.rs).
use git_cinnabar.Common.{
  concat, ℕ, zero, suc, ◌+◌, ◌-◌, ◌<◌, ◌≤◌, ◌≡◌, refl, ap, sym, ◌∙◌, Bool, true, false, ◌||◌, List,
  [], ◌∷◌, ◌++◌, Bytes, All, some, ◌==◌, if◌then◌else◌, leb, leb→le, Bool-cases, inl, inr, length,
  take, drop, length-take, length-drop, ◌⊎◌, append_assoc, append-nil, take-append, drop-append,
  take-append-drop, min, arith,
}
use git_cinnabar.Bundle.{write_u32, read_u32}
use git_cinnabar.Bundle.Chunk.{read_u32-write_u32}
use git_cinnabar.Bundle.Frames.{frames, IsChunk}
use git_cinnabar.Bundle.Part.{BundlePartReader, read, read_chunks}

minus_zero : (n : ℕ) → n - 0 ≡ n
minus_zero n = omega arith

minus_suc : (n m : ℕ) → suc n - suc m ≡ n - m
minus_suc n m = omega arith

-- What the reader has still to give: the rest of a chunk that is not empty, and the chunks behind
-- it; or nothing.
pub data Pending (data_left rest : Bytes) (r : BundlePartReader) : Type 0 where
  within :
      (chunk : Bytes) (chunks : List Bytes)
      → 0 < length chunk
      → All IsChunk chunks
      → r.remaining ≡ length chunk
      → r.reader ≡ chunk ++ (frames chunks ++ (write_u32 0 ++ rest))
      → data_left ≡ chunk ++ concat chunks
      → Pending data_left rest r
  at_end : r.remaining ≡ 0 → r.reader ≡ rest → data_left ≡ [] → Pending data_left rest r

-- The length of the next chunk has been read.
pub read_u32-Pending :
    (chunks : List Bytes) (rest : Bytes)
    → All IsChunk chunks
    → (n : ℕ) × (reader : Bytes) × (read_u32 (frames chunks ++ (write_u32 0 ++ rest))
        ≡ some (n, reader))
      × Pending (concat chunks) rest (record { reader = reader; remaining = n })
unfolding frames concat
read_u32-Pending [] rest v =
    (0, rest, read_u32-write_u32 0 rest (omega arith), at_end refl refl refl)
read_u32-Pending (c ∷ chunks) rest ((p, q), v) = (
  length c,
  _,
  rw (append_assoc (write_u32 (length c)) (c ++ frames chunks) (write_u32 0 ++ rest))
      (read_u32-write_u32 (length c) ((c ++ frames chunks) ++ (write_u32 0 ++ rest)) q),
  within c chunks p v refl (append_assoc c (frames chunks) _) refl,
)

take-split :
    (n : ℕ) (xs ys : Bytes) → length xs ≤ n → take n (xs ++ ys) ≡ xs ++ take (n - length xs) ys
take-split n [] ys h = rw (minus_zero n)
take-split zero (x ∷ xs) ys h = absurd (omega arith)
take-split (suc n) (x ∷ xs) ys h = rw (minus_suc n (length xs), take-split n xs ys (omega arith))

drop-split : (n : ℕ) (xs ys : Bytes) → length xs ≤ n → drop n (xs ++ ys) ≡ drop (n - length xs) ys
drop-split n [] ys h = rw (minus_zero n)
drop-split zero (x ∷ xs) ys h = absurd (omega arith)
drop-split (suc n) (x ∷ xs) ys h = rw (minus_suc n (length xs), drop-split n xs ys (omega arith))

positive-ne : (n : ℕ) → 0 < n → (n == 0) ≡ false
positive-ne n h = ground arith

-- One round of the loop, which reads the bytes `a`.
read_chunks-round :
    (fuel dest : ℕ) (r : BundlePartReader) (a left reader more : Bytes) (n : ℕ)
    (later : BundlePartReader)
    → 0 < r.remaining
    → 0 < dest
    → 0 < length a
    → take (min r.remaining dest) r.reader ≡ a
    → drop (min r.remaining dest) r.reader ≡ left
    → (if r.remaining - length a == 0 then read_u32 left else some (r.remaining - length a, left))
      ≡ some (n, reader)
    → read_chunks fuel (dest - length a) (record { reader = reader; remaining = n })
      ≡ some (more, later)
    → read_chunks (suc fuel) dest r ≡ some (a ++ more, later)
unfolding read_chunks
read_chunks-round fuel dest r a left reader more n later p q k e d f g =
    rw (positive-ne r.remaining p, positive-ne dest q, e, d, positive-ne (length a) k, f, g)

or_true : (b : Bool) → (b || true) ≡ true
or_true true = refl
or_true false = refl

at_end_read :
    (fuel dest : ℕ) (r : BundlePartReader)
    → (r.remaining ≡ 0) ⊎ (dest ≡ 0)
    → read_chunks (suc fuel) dest r ≡ some ([], r)
unfolding read_chunks
at_end_read fuel dest r (inl e) = rw e
at_end_read fuel dest r (inr e) = rw (e, or_true (r.remaining == 0))

-- The buffer is full within a chunk.
read_chunks-part :
    (fuel dest : ℕ) (r : BundlePartReader) (a b tail : Bytes)
    → r.remaining ≡ length a + length b
    → r.reader ≡ a ++ (b ++ tail)
    → length a ≡ dest
    → 0 < dest
    → 0 < length b
    → read_chunks (suc (suc fuel)) dest r
      ≡ some (a, record { reader = b ++ tail; remaining = length b })
read_chunks-part fuel dest r a b tail e d size p q =
    let dest_min : min r.remaining dest ≡ dest = omega arith in
    let left : r.remaining - length a ≡ length b = omega arith in
    let all_read : dest - length a ≡ 0 = omega arith in
    read_chunks-round (suc fuel) dest r a (b ++ tail) (b ++ tail) [] (length b) _ (omega arith) p
      (omega arith) (rw (dest_min, d) (take-append dest a (b ++ tail) size))
      (rw (dest_min, d) (drop-append dest a (b ++ tail) size)) (rw (left, positive-ne (length b) q))
      (at_end_read fuel (dest - length a) _ (inr all_read))
    ∙ rw (append-nil a)

-- A whole chunk is read, and the length behind it, and the loop goes on.
read_chunks-whole :
    (fuel dest : ℕ) (r : BundlePartReader) (chunk tail reader more : Bytes) (n : ℕ)
    (later : BundlePartReader)
    → r.remaining ≡ length chunk
    → r.reader ≡ chunk ++ tail
    → 0 < length chunk
    → length chunk ≤ dest
    → read_u32 tail ≡ some (n, reader)
    → read_chunks fuel (dest - length chunk) (record { reader = reader; remaining = n })
      ≡ some (more, later)
    → read_chunks (suc fuel) dest r ≡ some (chunk ++ more, later)
read_chunks-whole fuel dest r chunk tail reader more n later e d p q next g =
    let chunk_min : min r.remaining dest ≡ length chunk = omega arith in
    let left : r.remaining - length chunk ≡ 0 = omega arith in
    read_chunks-round fuel dest r chunk tail reader more n later (omega arith) (omega arith) p
      (rw (chunk_min, d) (take-append (length chunk) chunk tail refl))
      (rw (chunk_min, d) (drop-append (length chunk) chunk tail refl)) (rw left next) g

take-nil : (n : ℕ) → take {A = ℕ} n [] ≡ []
take-nil zero = refl
take-nil (suc n) = refl

drop-nil : (n : ℕ) → drop {A = ℕ} n [] ≡ []
drop-nil zero = refl
drop-nil (suc n) = refl

read_chunks-Pending :
    (fuel dest : ℕ) (data_left rest : Bytes) (r : BundlePartReader)
    → Pending data_left rest r
    → dest < fuel
    → (later : BundlePartReader) × (read_chunks fuel dest r ≡ some (take dest data_left, later))
      × Pending (drop dest data_left) rest later
read_chunks-Pending zero dest data_left rest r pending h = absurd (omega arith)
read_chunks-Pending (suc fuel) dest data_left rest r (at_end e d f) h =
    rw (f, take-nil dest, drop-nil dest) (r, at_end_read fuel dest r (inl e), at_end e d refl)
read_chunks-Pending (suc fuel) zero data_left rest r pending h =
    (r, at_end_read fuel 0 r (inr refl), pending)
read_chunks-Pending (suc zero) (suc dest) data_left rest r pending h = absurd (omega arith)
read_chunks-Pending (suc (suc fuel)) (suc dest) data_left rest r (within chunk chunks p v e d f) h =
    elim (Bool-cases (leb (length chunk) (suc dest))) [
      | inl whole ↦
          let q : length chunk ≤ suc dest = leb→le _ _ whole in
          let (n, reader, next, pending) = read_u32-Pending chunks rest v in
          let (later, g, pending_later) =
            read_chunks-Pending (suc fuel) (suc dest - length chunk) (concat chunks) rest
              (record { reader = reader; remaining = n }) pending (omega arith) in
          rw
            (
              f,
              take-split (suc dest) chunk (concat chunks) q,
              drop-split (suc dest) chunk (concat chunks) q,
            )
            (
              later,
              read_chunks-whole (suc fuel) (suc dest) r chunk
                  (frames chunks ++ (write_u32 0 ++ rest)) reader _ n later e d p q next g,
              pending_later,
            )
      | inr part ↦
          let a = take (suc dest) chunk in
          let b = drop (suc dest) chunk in
          let tail = frames chunks ++ (write_u32 0 ++ rest) in
          let split : chunk ≡ a ++ b = sym (take-append-drop (suc dest) chunk) in
          let size_a : length a ≡ suc dest = ground (arith, length-take (suc dest) chunk) in
          let size_b : length b ≡ length chunk - suc dest = length-drop (suc dest) chunk in
          let q : 0 < length b = ground arith in
          let cut : data_left ≡ a ++ (b ++ concat chunks) =
            f ∙ ap (λ c. c ++ concat chunks) split ∙ append_assoc a b (concat chunks) in
          (
            record { reader = b ++ tail; remaining = length b },
            read_chunks-part fuel (suc dest) r a b tail (ground arith)
                  (d ∙ ap (λ c. c ++ tail) split ∙ append_assoc a b tail) size_a (omega arith) q
                ∙ rw (cut, take-append (suc dest) a (b ++ concat chunks) size_a),
            rw (cut, drop-append (suc dest) a (b ++ concat chunks) size_a)
                (within b chunks q v refl refl refl),
          )
    ]

-- A read of a part of which `data_left` is pending gives the first `dest` bytes of it, or all of it,
-- and the rest of it is pending then, with the same bytes behind the part.
pub read-Pending :
    (dest : ℕ) (data_left rest : Bytes) (r : BundlePartReader)
    → Pending data_left rest r
    → (later : BundlePartReader) × (read dest r ≡ some (take dest data_left, later))
      × Pending (drop dest data_left) rest later
unfolding read
read-Pending dest data_left rest r pending =
    read_chunks-Pending (suc dest) dest data_left rest r pending (omega arith)
