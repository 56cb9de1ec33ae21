-- ===== src/Bundle/Stream/Parts.antt =====
-- The parts that are found are the parts that were begun (src/hg_bundle.rs).
use git_cinnabar.Common.{
  ℕ, ◌^◌, ◌<◌, ◌≡◌, refl, ap, sym, ◌∙◌, Bool, true, false, List, [], ◌∷◌, ◌++◌, Bytes, Option, none,
  some, ◌>>=◌, ◌>>◌, guard, leb, >>=-eq-some, is_empty, length, concat, append_assoc, append-nil,
  arith,
}
use git_cinnabar.Bundle.{read_u32, write_u32, write_bundle2_chunk}
use git_cinnabar.Bundle.Chunk.{read_bundle2_chunk-frame}
use git_cinnabar.Bundle.Info.{Unicode, BundlePartInfo, write_into, read_from}
use git_cinnabar.Bundle.Info.RoundTrip.{IsInfo, read_from-write_into}
use git_cinnabar.Bundle.Part
use git_cinnabar.Bundle.Part.{BundlePartWriter, BundlePartReader, write_all, drop_writer, read}
use git_cinnabar.Bundle.Part.RoundTrip.{part_with_full_chunk}
use git_cinnabar.Bundle.Spec.{BundleVersion}
use git_cinnabar.Bundle.Stream.{BundleWriter, advance, next_header, next_part, new_part, next_id}
use git_cinnabar.Bundle.Stream.Skip.{bundle_reader}

guard-then :
    (b : Bool) (k : Option BundleWriter) {w : BundleWriter}
    → (guard b >> k) ≡ some w
    → (b ≡ true) × (k ≡ some w)
guard-then true k h = (refl, h)
guard-then false k h = cc

some-injective {ℓ} : {A : Type ℓ} {a b : A} → some a ≡ some b → a ≡ b
some-injective h = cc

write_bundle2_chunk-some :
    (chunk written : Bytes)
    → write_bundle2_chunk chunk ≡ some written
    → (length chunk < 2 ^ 32) × (written ≡ write_u32 (length chunk) ++ chunk)
unfolding write_bundle2_chunk
write_bundle2_chunk-some chunk written h = ground arith

-- What a new part of the second version writes: its header as a chunk.
new_part-some :
    (unicode : Unicode) (w w' : BundleWriter) (info : BundlePartInfo)
    → w.version ≡ BundleVersion.v2
    → new_part unicode w info ≡ some w'
    → (header : Bytes) × (write_into unicode info ≡ some header)
      × (length header < 2 ^ 32)
      × (w'.writer ≡ w.writer ++ (write_u32 (length header) ++ header))
      × (w'.version ≡ BundleVersion.v2)
unfolding new_part
new_part-some unicode w w' info v2 h =
    let begun = λ (chunk : Bytes).
      some (record w { writer = w.writer ++ chunk; last_part_id = some info.part_id }) in
    let last = write_into unicode info >>= λ header. write_bundle2_chunk header >>= begun in
    let (_, h1) =
      guard-then (leb (next_id w.last_part_id) info.part_id) last (rw (new_part, v2) at h) in
    let (header, e, h2) = >>=-eq-some (write_into unicode info) _ h1 in
    let (chunk, d, h3) = >>=-eq-some (write_bundle2_chunk header) begun h2 in
    let (fits, text) = write_bundle2_chunk-some header chunk d in
    let same : w' ≡ record w { writer = w.writer ++ chunk; last_part_id = some info.part_id } =
      some-injective (sym h3) in
    (
      header,
      e,
      fits,
      ap (λ (s : BundleWriter). s.writer) same ∙ ap (λ t. w.writer ++ t) text,
      ap (λ (s : BundleWriter). s.version) same ∙ v2,
    )

next_part-header :
    (unicode : Unicode) (header behind reader : Bytes) (n : ℕ) (info : BundlePartInfo)
    → length header < 2 ^ 32
    → is_empty header ≡ false
    → read_from unicode header ≡ some (info, [])
    → read_u32 behind ≡ some (n, reader)
    → next_part unicode (record {
      reader = write_u32 (length header) ++ (header ++ behind);
      version = BundleVersion.v2;
      remaining = some 0;
    })
      ≡ some (some info, record { reader = reader; version = BundleVersion.v2; remaining = some n })
unfolding next_part advance next_header
next_part-header unicode header behind reader n info fits ne e d =
    rw (read_bundle2_chunk-frame header behind fits, ne, d, e)

-- The header that is read, with nothing behind it.
read_whole :
    (unicode : Unicode) (info : BundlePartInfo) (header : Bytes)
    → IsInfo info
    → write_into unicode info ≡ some header
    → read_from unicode header ≡ some (info, [])
read_whole unicode info header v h =
    ap (read_from unicode) (sym (append-nil header))
    ∙ read_from-write_into unicode info header [] v h

read_from-nil : (unicode : Unicode) → read_from unicode [] ≡ none
unfolding read_from
read_from-nil unicode = refl

none-ne-some {ℓ} : {A : Type ℓ} {o : Option A} {a : A} → o ≡ none → o ≡ some a → ⊥
none-ne-some h k = cc

written-not_empty :
    (unicode : Unicode) (info : BundlePartInfo) (header : Bytes)
    → IsInfo info
    → write_into unicode info ≡ some header
    → is_empty header ≡ false
written-not_empty unicode info [] v h =
    absurd (none-ne-some (read_from-nil unicode) (read_whole unicode info [] v h))
written-not_empty unicode info (c ∷ header) v h = refl

-- A part that is begun in the second version of the format is the next part that is found where the
-- last one ended, with its header, and with the length that stands behind it; where the type and the
-- parameters are ASCII, the type has no upper case letter and starts with a letter if the part is
-- mandatory, the id is a u32 and no parameter is there twice.
pub next_part-new_part :
    (unicode : Unicode) (w w' : BundleWriter) (info : BundlePartInfo)
    → w.version ≡ BundleVersion.v2
    → IsInfo info
    → new_part unicode w info ≡ some w'
    → (begun : Bytes) × (w'.writer ≡ w.writer ++ begun)
      × ((behind reader : Bytes) (n : ℕ)
          → read_u32 behind ≡ some (n, reader)
          → next_part unicode
              (record { reader = begun ++ behind; version = BundleVersion.v2; remaining = some 0 })
            ≡ some (
              some info,
              record { reader = reader; version = BundleVersion.v2; remaining = some n },
            ))
next_part-new_part unicode w w' info v2 v h =
    let (header, e, fits, text, _) = new_part-some unicode w w' info v2 h in
    (
      write_u32 (length header) ++ header,
      text,
      λ behind reader n d. rw (append_assoc (write_u32 (length header)) header behind) (
          next_part-header unicode header behind reader n info fits
            (written-not_empty unicode info header v e) (read_whole unicode info header v e) d),
    )

next_part-ending :
    (unicode : Unicode) (rest : Bytes)
    → next_part unicode
        (record { reader = write_u32 0 ++ rest; version = BundleVersion.v2; remaining = some 0 })
      ≡ some (none, record { reader = rest; version = BundleVersion.v2; remaining = none })
unfolding next_part advance next_header
next_part-ending unicode rest = rw (read_bundle2_chunk-frame [] rest (omega arith))

-- If the writer of a part is dropped with an empty buffer, the part is read back, and behind it the
-- end of the bundle is found, whatever is behind the part; for a chunk size that is positive and a
-- u32.
pub next_part_lost :
    (unicode : Unicode) (chunk_size : ℕ) (bufs : List Bytes) (rest : Bytes) (w : BundlePartWriter)
    → 0 < chunk_size
    → chunk_size < 2 ^ 32
    → write_all chunk_size (Part.new true []) bufs ≡ some w
    → w.bundle2_buf ≡ some []
    → (part : Bytes) × (n : ℕ) × (reader : Bytes) × (later : BundlePartReader) × (drop_writer w
        ≡ some part)
      × (read_u32 (part ++ rest) ≡ some (n, reader))
      × (read (length (concat bufs)) (record { reader = reader; remaining = n })
          ≡ some (concat bufs, later))
      × (next_part unicode (bundle_reader later)
          ≡ some (none, record { reader = rest; version = BundleVersion.v2; remaining = none }))
next_part_lost unicode chunk_size bufs rest w p q written full =
    let (part, n, reader, later, dropped, first, got, ended, left) =
      part_with_full_chunk chunk_size bufs rest w p q written full in
    (part, n, reader, later, dropped, first, got, rw (ended, left) (next_part-ending unicode rest))
