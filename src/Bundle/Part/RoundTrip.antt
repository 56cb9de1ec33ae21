-- ===== src/Bundle/Part/RoundTrip.antt =====
-- A part that is written in pieces is read back (src/hg_bundle.rs).
use git_cinnabar.Common.{
  concat, ℕ, ◌^◌, ◌<◌, ◌≡◌, ◌≢◌, refl, ap, sym, ◌∙◌, true, List, [], ◌∷◌, ◌++◌, Bytes, some, length,
  take, drop, append_assoc, append-nil, arith,
}
use git_cinnabar.Bundle.{write_u32, read_u32}
use git_cinnabar.Bundle.Frames.{frames}
use git_cinnabar.Bundle.Part.{BundlePartWriter, BundlePartReader, new, write_all, drop_writer, read}
use git_cinnabar.Bundle.Part.Write.{Holds, write-Holds, drop_writer-Holds, drop_writer-full}
use git_cinnabar.Bundle.Part.Read.{Pending, read_u32-Pending, read-Pending}

pub new-Holds :
    (chunk_size : ℕ) (start : Bytes) → 0 < chunk_size → Holds chunk_size start [] (new true start)
unfolding new frames concat
new-Holds chunk_size start p = record {
  chunks = [];
  buffer = [];
  is_chunks = tt;
  bundle2_buf = refl;
  writer = sym (append-nil start);
  held = refl;
  not_full = p;
}

-- However data is cut into writes, they succeed, and a writer that held `content` holds it with the
-- data behind it: whole chunks that are written, and less than a chunk in the buffer; for a chunk
-- size that is positive and a u32.
pub write_all-Holds :
    (chunk_size : ℕ) (start content : Bytes) (w : BundlePartWriter) (bufs : List Bytes)
    → 0 < chunk_size
    → chunk_size < 2 ^ 32
    → Holds chunk_size start content w
    → (w' : BundlePartWriter) × (write_all chunk_size w bufs ≡ some w')
      × Holds chunk_size start (content ++ concat bufs) w'
unfolding write_all concat
write_all-Holds chunk_size start content w [] p q h = (w, refl, rw (append-nil content) h)
write_all-Holds chunk_size start content w (buf ∷ bufs) p q h =
    let (w1, e, h1) = write-Holds chunk_size start content w buf p q h in
    let (w2, d, h2) = write_all-Holds chunk_size start (content ++ buf) w1 bufs p q h1 in
    (w2, rw e d, rw (← append_assoc content buf (concat bufs)) h2)

take-all : (xs : Bytes) → take (length xs) xs ≡ xs
take-all [] = refl
take-all (x ∷ xs) = ap (◌∷◌ x) (take-all xs)

some-injective : {v w : BundlePartWriter} → some v ≡ some w → v ≡ w
some-injective h = cc

drop-all : (xs : Bytes) → drop (length xs) xs ≡ []
drop-all [] = refl
drop-all (x ∷ xs) = drop-all xs

append-ne-nil : (xs ys : Bytes) → 0 < length xs → [] ≢ xs ++ ys
append-ne-nil [] ys h = absurd (omega arith)
append-ne-nil (x ∷ xs) ys h = λ e. cc

Pending-nil :
    (rest : Bytes) (r : BundlePartReader)
    → Pending [] rest r
    → (r.remaining ≡ 0) × (r.reader ≡ rest)
Pending-nil rest r (Pending.within chunk chunks p v e d f) =
    absurd (append-ne-nil chunk (concat chunks) p f)
Pending-nil rest r (Pending.at_end e d f) = (e, d)

-- The data that was written in pieces to a new writer of a part, which is then dropped, comes back
-- from one read of a reader that has read the first length, and what is behind the part is what is
-- left; for a chunk size that is positive and a u32, and if the writer's buffer is not empty at the
-- end.
pub part_round_trip :
    (chunk_size : ℕ) (bufs : List Bytes) (rest : Bytes) (w : BundlePartWriter)
    → 0 < chunk_size
    → chunk_size < 2 ^ 32
    → write_all chunk_size (new true []) bufs ≡ some w
    → w.bundle2_buf ≢ some []
    → (part : Bytes) × (n : ℕ) × (reader : Bytes) × (later : BundlePartReader) × (drop_writer w
        ≡ some part)
      × (read_u32 (part ++ rest) ≡ some (n, reader))
      × (read (length (concat bufs)) (record { reader = reader; remaining = n })
          ≡ some (concat bufs, later))
      × (later.remaining ≡ 0)
      × (later.reader ≡ rest)
part_round_trip chunk_size bufs rest w p q written ne =
    let (w', e, h) =
      write_all-Holds chunk_size [] [] (new true []) bufs p q (new-Holds chunk_size [] p) in
    let same : w' ≡ w = some-injective (sym e ∙ written) in
    let (chunks, v, content, out) =
      drop_writer-Holds chunk_size [] (concat bufs) w q (rw (← same) h) ne in
    let (n, reader, first, pending) = read_u32-Pending chunks rest v in
    let size = length (concat bufs) in
    let (later, got, pending_later) =
      read-Pending size (concat bufs) rest (record { reader = reader; remaining = n })
        (rw content pending) in
    let (ended, left) = Pending-nil rest later (rw (drop-all (concat bufs)) at pending_later) in
    (
      frames chunks ++ write_u32 0,
      n,
      reader,
      later,
      out,
      rw (append_assoc (frames chunks) (write_u32 0) rest) first,
      rw (take-all (concat bufs)) at got,
      ended,
      left,
    )

-- If the writer's buffer is empty at the end, because the last write ended with a full chunk or
-- nothing was written, the data comes back, but an empty chunk stays in front of what is behind the
-- part; for a chunk size that is positive and a u32.
pub part_with_full_chunk :
    (chunk_size : ℕ) (bufs : List Bytes) (rest : Bytes) (w : BundlePartWriter)
    → 0 < chunk_size
    → chunk_size < 2 ^ 32
    → write_all chunk_size (new true []) bufs ≡ some w
    → w.bundle2_buf ≡ some []
    → (part : Bytes) × (n : ℕ) × (reader : Bytes) × (later : BundlePartReader) × (drop_writer w
        ≡ some part)
      × (read_u32 (part ++ rest) ≡ some (n, reader))
      × (read (length (concat bufs)) (record { reader = reader; remaining = n })
          ≡ some (concat bufs, later))
      × (later.remaining ≡ 0)
      × (later.reader ≡ write_u32 0 ++ rest)
part_with_full_chunk chunk_size bufs rest w p q written full =
    let (w', e, h) =
      write_all-Holds chunk_size [] [] (new true []) bufs p q (new-Holds chunk_size [] p) in
    let same : w' ≡ w = some-injective (sym e ∙ written) in
    let (chunks, v, content, out) =
      drop_writer-full chunk_size [] (concat bufs) w (rw (← same) h) full in
    let (n, reader, first, pending) = read_u32-Pending chunks (write_u32 0 ++ rest) v in
    let size = length (concat bufs) in
    let (later, got, pending_later) =
      read-Pending size (concat bufs) (write_u32 0 ++ rest)
        (record { reader = reader; remaining = n }) (rw content pending) in
    let (ended, left) =
      Pending-nil (write_u32 0 ++ rest) later (rw (drop-all (concat bufs)) at pending_later) in
    (
      frames chunks ++ (write_u32 0 ++ write_u32 0),
      n,
      reader,
      later,
      out,
      rw
          (
            append_assoc (frames chunks) (write_u32 0 ++ write_u32 0) rest,
            append_assoc (write_u32 0) (write_u32 0) rest,
          )
          first,
      rw (take-all (concat bufs)) at got,
      ended,
      left,
    )
