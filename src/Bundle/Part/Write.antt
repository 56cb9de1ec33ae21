-- ===== src/Bundle/Part/Write.antt =====
-- What the writer of a part has written are whole chunks (src/hg_bundle.rs).
use git_cinnabar.Common.{
  concat, concat-append, ℕ, zero, suc, ◌+◌, ◌-◌, ◌%◌, ◌^◌, ◌<◌, ◌≤◌, ◌≡◌, ◌≢◌, refl, ap, sym, ◌∙◌,
  List, [], ◌∷◌, ◌++◌, Bytes, All, All-append, some, leb, Bool-cases, inl, inr, lt→ltb, leb→le,
  length, take, drop, length-append, length-take, length-drop, append_assoc, append-nil,
  take-append-drop, arith,
}
use git_cinnabar.Bundle.{write_u32, write_bundle2_chunk}
use git_cinnabar.Bundle.Frames.{frames, IsChunk, frames-append}
use git_cinnabar.Bundle.Part.{BundlePartWriter, write, write_chunks, flush, drop_writer}

-- The writer holds `content`: chunks that are written, and less than a chunk in the buffer.
pub record Holds (chunk_size : ℕ) (start content : Bytes) (w : BundlePartWriter) : Type 0 where
  pub chunks : List Bytes
  pub buffer : Bytes
  pub is_chunks : All IsChunk chunks
  pub bundle2_buf : w.bundle2_buf ≡ some buffer
  pub writer : w.writer ≡ start ++ frames chunks
  pub held : content ≡ concat chunks ++ buffer
  pub not_full : length buffer < chunk_size

frames-snoc :
    (cs : List Bytes) (c : Bytes) → frames (cs ++ c ∷ []) ≡ frames cs ++ (write_u32 (length c) ++ c)
unfolding frames
frames-snoc cs c = frames-append cs (c ∷ []) ∙ rw (append-nil c)

concat-snoc : (cs : List Bytes) (c : Bytes) → concat (cs ++ c ∷ []) ≡ concat cs ++ c
unfolding concat
concat-snoc cs c = concat-append cs (c ∷ []) ∙ rw (append-nil c)

-- The chunk that fills up with the front of what is written.
filled : ℕ → Bytes → Bytes → Bytes
filled chunk_size buffer buf = buffer ++ take (chunk_size - length buffer) buf

length-filled :
    (chunk_size : ℕ) (buffer buf : Bytes)
    → length buffer < chunk_size
    → chunk_size ≤ length buffer + length buf
    → length (filled chunk_size buffer buf) ≡ chunk_size
unfolding filled
length-filled chunk_size buffer buf n full = omega (
  arith,
  length-append buffer (take (chunk_size - length buffer) buf),
  length-take (chunk_size - length buffer) buf,
)

concat-filled :
    (chunks : List Bytes) (chunk_size : ℕ) (buffer buf : Bytes)
    → concat (chunks ++ filled chunk_size buffer buf ∷ []) ++ drop (chunk_size - length buffer) buf
      ≡ concat chunks ++ (buffer ++ buf)
unfolding filled
concat-filled chunks chunk_size buffer buf =
    let m = chunk_size - length buffer in
    rw (
      concat-snoc chunks (buffer ++ take m buf),
      append_assoc (concat chunks) (buffer ++ take m buf) (drop m buf),
      append_assoc buffer (take m buf) (drop m buf),
      take-append-drop m buf,
    )

write_chunks-Holds :
    (fuel chunk_size : ℕ) (start content writer buffer buf : Bytes) (chunks : List Bytes)
    → 0 < chunk_size
    → chunk_size < 2 ^ 32
    → All IsChunk chunks
    → writer ≡ start ++ frames chunks
    → content ≡ concat chunks ++ (buffer ++ buf)
    → length buffer < chunk_size
    → length buf < fuel
    → (w : BundlePartWriter) × (write_chunks fuel chunk_size writer buffer buf ≡ some w)
      × Holds chunk_size start content w
unfolding write_chunks filled
write_chunks-Holds zero chunk_size start content writer buffer buf chunks p q v e d n k =
    absurd (omega arith)
write_chunks-Holds (suc fuel) chunk_size start content writer buffer buf chunks p q v e d n k =
    elim (Bool-cases (leb chunk_size (length buffer + length buf))) [
      | inl full ↦
          let m = chunk_size - length buffer in
          let c = filled chunk_size buffer buf in
          let size = length-filled chunk_size buffer buf n (leb→le _ _ full) in
          let in_range : chunk_size % 2 ^ 32 ≡ chunk_size = omega arith in
          rw full (
            write_chunks-Holds fuel chunk_size start content
              (writer ++ (write_u32 (chunk_size % 2 ^ 32) ++ c)) [] (drop m buf) (chunks ++ c ∷ [])
              p q (All-append IsChunk chunks (c ∷ []) v ((omega arith, omega arith), tt))
              (rw (frames-snoc chunks c, size, in_range, e)
                (append_assoc start (frames chunks) (write_u32 chunk_size ++ c)))
              (d ∙ sym (concat-filled chunks chunk_size buffer buf)) p
              (omega (arith, length-drop m buf, leb→le _ _ full)))
      | inr room ↦ rw room (
        _,
        refl,
        record {
          chunks = chunks;
          buffer = buffer ++ buf;
          is_chunks = v;
          bundle2_buf = refl;
          writer = e;
          held = d;
          not_full = ground (arith, length-append buffer buf);
        },
      )
    ]

pub write-Holds :
    (chunk_size : ℕ) (start content : Bytes) (w : BundlePartWriter) (buf : Bytes)
    → 0 < chunk_size
    → chunk_size < 2 ^ 32
    → Holds chunk_size start content w
    → (w' : BundlePartWriter) × (write chunk_size w buf ≡ some w')
      × Holds chunk_size start (content ++ buf) w'
unfolding write
write-Holds chunk_size start content w buf p q h = rw (h.bundle2_buf) (
    write_chunks-Holds (suc (length buf)) chunk_size start (content ++ buf) w.writer h.buffer buf
      h.chunks p q h.is_chunks h.writer (rw h.held (append_assoc (concat h.chunks) h.buffer buf))
      h.not_full (omega arith))

write_bundle2_chunk-fits :
    (c : Bytes) → length c < 2 ^ 32 → write_bundle2_chunk c ≡ some (write_u32 (length c) ++ c)
unfolding write_bundle2_chunk
write_bundle2_chunk-fits c h = rw (lt→ltb (length c) (2 ^ 32) h)

length-pos : (c : Bytes) → c ≢ [] → 0 < length c
length-pos [] h = absurd (h refl)
length-pos (b ∷ c) h = omega arith

flush-buffer :
    (w : BundlePartWriter) (c : Bytes)
    → w.bundle2_buf ≡ some c
    → length c < 2 ^ 32
    → flush w
      ≡ some (record { writer = w.writer ++ (write_u32 (length c) ++ c); bundle2_buf = some [] })
unfolding flush
flush-buffer w c e h = rw (e, write_bundle2_chunk-fits c h)

drop_writer-buffer :
    (w : BundlePartWriter) (c : Bytes)
    → w.bundle2_buf ≡ some c
    → length c < 2 ^ 32
    → drop_writer w ≡ some ((w.writer ++ (write_u32 (length c) ++ c)) ++ write_u32 0)
unfolding drop_writer
drop_writer-buffer w c e h =
    rw
      (flush-buffer w c e h, e, write_bundle2_chunk-fits [] (omega arith), append-nil (write_u32 0))

-- A flush of a buffer that is not empty succeeds, and the writer holds what it held; for a chunk size
-- that is a u32.
pub flush-Holds :
    (chunk_size : ℕ) (start content : Bytes) (w : BundlePartWriter)
    → chunk_size < 2 ^ 32
    → Holds chunk_size start content w
    → w.bundle2_buf ≢ some []
    → (w' : BundlePartWriter) × (flush w ≡ some w') × Holds chunk_size start content w'
flush-Holds chunk_size start content w q h ne =
    let c = h.buffer in
    let filled_up = length-pos c (λ e. ne (h.bundle2_buf ∙ ap some e)) in
    (
      _,
      flush-buffer w c h.bundle2_buf (omega (arith, h.not_full)),
      record {
        chunks = h.chunks ++ c ∷ [];
        buffer = [];
        is_chunks =
            All-append IsChunk h.chunks (c ∷ []) h.is_chunks
              ((filled_up, omega (arith, h.not_full)), tt);
        bundle2_buf = refl;
        writer =
            rw (h.writer, frames-snoc h.chunks c)
              (append_assoc start (frames h.chunks) (write_u32 (length c) ++ c));
        held = h.held ∙ sym (append-nil _ ∙ concat-snoc h.chunks c);
        not_full = omega (arith, h.not_full);
      },
    )

-- A writer that holds `content` and is dropped with a buffer that is not empty has written chunks
-- that are not empty and whose data is `content`, and one empty chunk; for a chunk size that is a
-- u32.
pub drop_writer-Holds :
    (chunk_size : ℕ) (start content : Bytes) (w : BundlePartWriter)
    → chunk_size < 2 ^ 32
    → Holds chunk_size start content w
    → w.bundle2_buf ≢ some []
    → (chunks : List Bytes) × All IsChunk chunks
      × (content ≡ concat chunks)
      × (drop_writer w ≡ some (start ++ (frames chunks ++ write_u32 0)))
drop_writer-Holds chunk_size start content w q h ne =
    let c = h.buffer in
    let filled_up = length-pos c (λ e. ne (h.bundle2_buf ∙ ap some e)) in
    (
      h.chunks ++ c ∷ [],
      All-append IsChunk h.chunks (c ∷ []) h.is_chunks ((filled_up, omega (arith, h.not_full)), tt),
      h.held ∙ sym (concat-snoc h.chunks c),
      drop_writer-buffer w c h.bundle2_buf (omega (arith, h.not_full))
          ∙ rw (
            h.writer,
            frames-snoc h.chunks c,
            append_assoc start (frames h.chunks) (write_u32 (length c) ++ c),
            append_assoc start (frames h.chunks ++ (write_u32 (length c) ++ c)) (write_u32 0),
          ),
    )

some-injective : {a b : Bytes} → some a ≡ some b → a ≡ b
some-injective h = cc

-- The end of a part whose buffer is empty, because it has just been written out: two empty chunks,
-- of which the first ends the part.
pub drop_writer-full :
    (chunk_size : ℕ) (start content : Bytes) (w : BundlePartWriter)
    → Holds chunk_size start content w
    → w.bundle2_buf ≡ some []
    → (chunks : List Bytes) × All IsChunk chunks
      × (content ≡ concat chunks)
      × (drop_writer w ≡ some (start ++ (frames chunks ++ (write_u32 0 ++ write_u32 0))))
drop_writer-full chunk_size start content w h e = (
  h.chunks,
  h.is_chunks,
  (let empty : h.buffer ≡ [] = some-injective (sym h.bundle2_buf ∙ e) in
      h.held ∙ rw empty (append-nil (concat h.chunks))),
  drop_writer-buffer w [] e (omega arith)
      ∙ rw (
        h.writer,
        append-nil (write_u32 0),
        append_assoc start (frames h.chunks) (write_u32 0),
        append_assoc start (frames h.chunks ++ write_u32 0) (write_u32 0),
        append_assoc (frames h.chunks) (write_u32 0) (write_u32 0),
      ),
)
