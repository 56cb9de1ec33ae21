-- ===== src/Bundle/Frames.antt =====
-- Chunks of the second bundle format, one behind the other: what the bytes of a part stand for.
use git_cinnabar.Common.{◌<◌, ◌^◌, ◌≡◌, refl, List, [], ◌∷◌, ◌++◌, Bytes, length, append_assoc}
use git_cinnabar.Bundle.{write_u32}

-- The chunks with their lengths.
unfoldable pub frames : List Bytes → Bytes
frames [] = []
frames (c ∷ cs) = write_u32 (length c) ++ (c ++ frames cs)

-- A chunk within a part: it is not empty, and its length is a u32.
abbrev pub IsChunk : Bytes → Type 0
IsChunk c = (0 < length c) × (length c < 2 ^ 32)

pub frames-append : (cs ds : List Bytes) → frames (cs ++ ds) ≡ frames cs ++ frames ds
unfolding frames
frames-append [] ds = refl
frames-append (c ∷ cs) ds = rw (
  frames-append cs ds,
  append_assoc (write_u32 (length c)) (c ++ frames cs) (frames ds),
  append_assoc c (frames cs) (frames ds),
)
