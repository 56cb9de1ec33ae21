-- ===== src/Bundle/Chunk.antt =====
-- What is written as a chunk is read as one (src/hg_bundle.rs).
use git_cinnabar.Common.{
  ℕ, suc, ◌+◌, ◌*◌, ◌/◌, ◌%◌, ◌^◌, ◌<◌, ◌≡◌, refl, ap, false, [], ◌∷◌, ◌++◌, Bytes, some, ◌==◌, ltb,
  length, take-append, drop-append, length-append, append_assoc, arith, Bool-cases, inl, inr,
  ltb→lt,
}
use git_cinnabar.Bundle.{
  write_u32, read_u32, read_exactly, read_bundle2_chunk, write_bundle2_chunk, skip_bundle2_chunk,
}

pub read_u32-write_u32 :
    (n : ℕ) (rest : Bytes) → n < 2 ^ 32 → read_u32 (write_u32 n ++ rest) ≡ some (n, rest)
unfolding read_u32 write_u32
read_u32-write_u32 n rest h =
    let value : n / 2 ^ 24 % 2 ^ 8 * 2 ^ 24
          + n / 2 ^ 16 % 2 ^ 8 * 2 ^ 16
          + n / 2 ^ 8 % 2 ^ 8 * 2 ^ 8
          + n % 2 ^ 8
        ≡ n =
      omega arith in
    ap (λ m. some (m, rest)) value

not_short : (n m : ℕ) → ltb (n + m) n ≡ false
not_short n m = ground arith

pub read_exactly-append : (a b : Bytes) → read_exactly (length a) (a ++ b) ≡ some (a, b)
unfolding read_exactly
read_exactly-append a b = rw (
  length-append a b,
  not_short (length a) (length b),
  take-append (length a) a b refl,
  drop-append (length a) a b refl,
)

suc-ne-zero : (n : ℕ) → (suc n == 0) ≡ false
suc-ne-zero n = ground arith

pub read_bundle2_chunk-frame :
    (chunk rest : Bytes)
    → length chunk < 2 ^ 32
    → read_bundle2_chunk (write_u32 (length chunk) ++ (chunk ++ rest)) ≡ some (chunk, rest)
unfolding read_bundle2_chunk
read_bundle2_chunk-frame [] rest h = rw (read_u32-write_u32 0 rest h)
read_bundle2_chunk-frame (c ∷ chunk) rest h = rw (
  read_u32-write_u32 (length (c ∷ chunk)) (c ∷ chunk ++ rest) h,
  suc-ne-zero (length chunk),
  read_exactly-append (c ∷ chunk) rest,
)

pub skip_bundle2_chunk-frame :
    (chunk rest : Bytes)
    → length chunk < 2 ^ 32
    → skip_bundle2_chunk (write_u32 (length chunk) ++ (chunk ++ rest)) ≡ some (length chunk, rest)
unfolding skip_bundle2_chunk
skip_bundle2_chunk-frame [] rest h = rw (read_u32-write_u32 0 rest h)
skip_bundle2_chunk-frame (c ∷ chunk) rest h = rw (
  read_u32-write_u32 (length (c ∷ chunk)) (c ∷ chunk ++ rest) h,
  suc-ne-zero (length chunk),
  take-append (length chunk) chunk rest refl,
  drop-append (length chunk) chunk rest refl,
)

-- A chunk that is written, and so has a length that is a u32, is read back, and skipped as a whole,
-- with what is behind it left.
pub write_bundle2_chunk_read :
    (chunk written rest : Bytes)
    → write_bundle2_chunk chunk ≡ some written
    → (read_bundle2_chunk (written ++ rest) ≡ some (chunk, rest))
      × (skip_bundle2_chunk (written ++ rest) ≡ some (length chunk, rest))
unfolding write_bundle2_chunk
write_bundle2_chunk_read chunk written rest h = elim (Bool-cases (ltb (length chunk) (2 ^ 32))) [
  | inl fits ↦
      let e : written ≡ write_u32 (length chunk) ++ chunk = ground (arith) in
      rw (e, append_assoc (write_u32 (length chunk)) chunk rest)
        (
          read_bundle2_chunk-frame chunk rest (ltb→lt _ _ fits),
          skip_bundle2_chunk-frame chunk rest (ltb→lt _ _ fits),
        )
  | inr long ↦ ground (arith)
]
