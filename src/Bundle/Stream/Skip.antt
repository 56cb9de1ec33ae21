-- ===== src/Bundle/Stream/Skip.antt =====
-- However much of a part has been read, the next part is found (src/hg_bundle.rs).
use git_cinnabar.Common.{
  ℕ, zero, suc, ◌<◌, ◌≤◌, ◌≡◌, refl, ap, sym, ◌∙◌, false, List, [], ◌∷◌, ◌++◌, Bytes, All, some,
  ◌==◌, length, drop, length-append, drop-append, append_assoc, arith,
}
use git_cinnabar.Bundle.{write_u32}
use git_cinnabar.Bundle.Chunk.{skip_bundle2_chunk-frame}
use git_cinnabar.Bundle.Frames.{frames, IsChunk}
use git_cinnabar.Bundle.Info.{Unicode}
use git_cinnabar.Bundle.Part.{BundlePartReader}
use git_cinnabar.Bundle.Part.Read.{Pending}
use git_cinnabar.Bundle.Spec.{BundleVersion}
use git_cinnabar.Bundle.Stream.{BundleReader, skip_chunks, advance, next_part}

pos-ne : (n : ℕ) → 0 < n → (n == 0) ≡ false
pos-ne n h = ground arith

skip_chunks-frames :
    (chunks : List Bytes) (rest : Bytes) (fuel : ℕ)
    → All IsChunk chunks
    → length chunks < fuel
    → skip_chunks fuel (frames chunks ++ (write_u32 0 ++ rest)) ≡ some rest
unfolding frames skip_chunks
skip_chunks-frames chunks rest zero v h = absurd (omega arith)
skip_chunks-frames [] rest (suc fuel) v h = rw (skip_bundle2_chunk-frame [] rest (omega arith))
skip_chunks-frames (c ∷ chunks) rest (suc fuel) ((p, q), v) h =
    let behind = frames chunks ++ (write_u32 0 ++ rest) in
    rw (
      append_assoc (write_u32 (length c)) (c ++ frames chunks) (write_u32 0 ++ rest),
      append_assoc c (frames chunks) (write_u32 0 ++ rest),
      skip_bundle2_chunk-frame c behind q,
      pos-ne (length c) p,
      skip_chunks-frames chunks rest fuel v (omega arith),
    )

length-frames : (chunks : List Bytes) → All IsChunk chunks → length chunks ≤ length (frames chunks)
unfolding frames
length-frames [] v = omega arith
length-frames (c ∷ chunks) ((p, q), v) = omega (
  arith,
  length-append (write_u32 (length c)) (c ++ frames chunks),
  length-append c (frames chunks),
  length-frames chunks v,
)

advance-within :
    (reader chunk : Bytes) (chunks : List Bytes) (rest : Bytes) (n : ℕ)
    → n ≡ length chunk
    → 0 < n
    → reader ≡ chunk ++ (frames chunks ++ (write_u32 0 ++ rest))
    → All IsChunk chunks
    → advance BundleVersion.v2 n reader ≡ some rest
unfolding advance
advance-within reader chunk chunks rest zero e p d v = absurd (omega arith)
advance-within reader chunk chunks rest (suc n) e p d v =
    let behind = frames chunks ++ (write_u32 0 ++ rest) in
    let left : drop (suc n) reader ≡ behind =
      ap (drop (suc n)) d ∙ drop-append (suc n) chunk behind (sym e) in
    rw left (
      skip_chunks-frames chunks rest (suc (length behind)) v (
        omega (arith, length-append (frames chunks) (write_u32 0 ++ rest), length-frames chunks v)))

-- The reader of a bundle as the reader of its part has left it.
abbrev pub bundle_reader : BundlePartReader → BundleReader
bundle_reader r = record {
  reader = r.reader;
  version = BundleVersion.v2;
  remaining = some r.remaining;
}

-- Where some data of a part is pending, or none, the next part is what is found where the part ends.
pub next_part-Pending :
    (unicode : Unicode) (data_left rest : Bytes) (r : BundlePartReader)
    → Pending data_left rest r
    → next_part unicode (bundle_reader r)
      ≡ next_part unicode (record { reader = rest; version = BundleVersion.v2; remaining = some 0 })
unfolding next_part
next_part-Pending unicode data_left rest r (Pending.within chunk chunks p v e d f) =
    rw (advance-within r.reader chunk chunks rest r.remaining e (omega arith) d v)
      (unfold advance in refl)
next_part-Pending unicode data_left rest r (Pending.at_end e d f) = rw (e, d)
