-- ===== src/Bundle/Rev.antt =====
-- src/hg_bundle.rs: `RevChunk` and `RevChunkIter`, the revisions of a changegroup, and `write_chunk`.
-- The difference of two texts is a parameter, as is reading an object.
pub mod Delta
pub mod Read
pub mod RoundTrip
use git_cinnabar.Common.{
  ℕ, zero, suc, ◌+◌, ◌-◌, ◌*◌, ◌^◌, Bool, true, false, not, ◌&&◌, List, [], ◌∷◌, ◌++◌, Bytes,
  Option, none, some, ◌>>=◌, ◌==◌, ltb, leb, if◌then◌else◌, is_empty, length, take, drop, map,
  bytes_eq, Outcome, ok, error, panic,
}
use git_cinnabar.Bundle.{write_u32, read_rev_chunk}
use git_cinnabar.Oid.{Oid, null_oid, is_null}

pub record RevChunk : Type 0 where
  pub raw : Bytes
  pub delta : Option Oid

-- `raw[from..from + 20]` as an id; the iterator has checked that there are as many bytes.
unfoldable id_at : ℕ → Bytes → Oid
id_at from raw = record { raw = take 20 (drop from raw) }

unfoldable pub node : RevChunk → Oid
unfolding id_at
node chunk = id_at 0 chunk.raw

unfoldable pub parent1 : RevChunk → Oid
unfolding id_at
parent1 chunk = id_at 20 chunk.raw

unfoldable pub parent2 : RevChunk → Oid
unfolding id_at
parent2 chunk = id_at 40 chunk.raw

unfoldable pub delta_node : RevChunk → Oid
unfolding id_at
delta_node chunk = elim chunk.delta [ some oid ↦ oid | none ↦ id_at 60 chunk.raw ]

-- The bytes that `iter_diff` goes through.
unfoldable pub diff_bytes : RevChunk → Bytes
diff_bytes chunk = elim chunk.delta [ some _ ↦ drop 80 chunk.raw | none ↦ drop 100 chunk.raw ]

pub record RevChunkIter : Type 0 where
  pub version : ℕ
  pub last_delta_node : Option Oid
  pub next_delta_node : Option Oid
  pub reader : Bytes

unfoldable or_else : Option Oid → Oid → Oid
or_else none o = o
or_else (some x) o = x

-- A chunk of the first version is a difference from the chunk before it, or from its first parent.
unfoldable rev_chunk : RevChunkIter → Bytes → Bytes → RevChunk × RevChunkIter
unfolding or_else
rev_chunk iter raw reader =
    let chunk : RevChunk = record { raw = raw; delta = none } in
    if iter.version == 1
    then (
      record { raw = raw; delta = some (or_else iter.next_delta_node (parent1 chunk)) },
      record {
        version = iter.version;
        last_delta_node = iter.next_delta_node;
        next_delta_node = some (node chunk);
        reader = reader;
      },
    )
    else (chunk, record iter { reader = reader })

-- `RevChunkIter::next`; `error` is `die!`.
unfoldable pub next : RevChunkIter → Outcome (Option (RevChunk × RevChunkIter))
unfolding rev_chunk
next iter = elim (read_rev_chunk iter.reader) [
  | error ↦ error
  | panic ↦ panic
  | ok (buf, reader) ↦
      if is_empty buf
      then ok none
      else if ltb (length buf) (80 + 20 * (if iter.version == 1 then 0 else 1))
      then error
      else ok (some (rev_chunk iter buf reader))
]

-- `filter(|p| !p.is_null()).dedup()` of the two parents.
unfoldable parents : Oid → Oid → List Oid
parents p q =
    if is_null p
    then (if is_null q then [] else q ∷ [])
    else if is_null q
    then p ∷ []
    else if bytes_eq p.raw q.raw
    then p ∷ []
    else p ∷ q ∷ []

-- `min_by_key` of the lengths: the first of the shortest.
unfoldable shortest : Option Oid × Bytes → List (Option Oid × Bytes) → Option Oid × Bytes
shortest best [] = best
shortest best (c ∷ rest) =
    if ltb (length c.1) (length best.1) then shortest c rest else shortest best rest

module _ (create_chunk_data : Bytes → Bytes → Bytes) (f : Oid → Bytes) where
  -- The text that a chunk of the first version is a difference from.
  unfoldable base_v1 : Option (Oid × Bytes) → Oid → Bytes
  base_v1 (some previous) p = previous.1
  base_v1 none p = if is_null p then [] else f p

  unfoldable candidate : Option (Oid × Bytes) → Bool → Bytes → Oid → Option Oid × Bytes
  candidate (some previous) true raw_object p =
      (some previous.0, create_chunk_data previous.1 raw_object)
  candidate previous always_previous raw_object p = (some p, create_chunk_data (f p) raw_object)

  unfoldable without_parents : Option (Oid × Bytes) → Bytes → Option Oid × Bytes
  without_parents (some previous) raw_object =
      (some previous.0, create_chunk_data previous.1 raw_object)
  without_parents none raw_object = (none, create_chunk_data [] raw_object)

  unfoldable delta_v2 : List Oid → Option (Oid × Bytes) → Bool → Bytes → Option Oid × Bytes
  unfolding candidate without_parents shortest
  delta_v2 [] previous always_previous raw_object = without_parents previous raw_object
  delta_v2 (p ∷ ps) previous always_previous raw_object =
      shortest (candidate previous always_previous raw_object p)
        (map (candidate previous always_previous raw_object) ps)

  unfoldable pub delta : ℕ → Oid → Oid → Option (Oid × Bytes) → Bool → Bytes → Option Oid × Bytes
  unfolding base_v1 delta_v2 parents
  delta version p q previous always_previous raw_object =
      if version == 1
      then (none, create_chunk_data (base_v1 previous p) raw_object)
      else delta_v2 (parents p q) previous always_previous raw_object

  -- The delta node in a chunk, which only the second version writes.
  unfoldable delta_bytes : ℕ → Option Oid → Bytes
  unfolding or_else
  delta_bytes version d = if version == 2 then (or_else d null_oid).raw else []

  -- `write_chunk`: what is written, and the previous object from then on; `none` is a length that
  -- is no u32.
  unfoldable pub write_chunk :
      ℕ
      → Oid
      → Oid
      → Oid
      → Oid
      → Option (Oid × Bytes)
      → Bool
      → Option (Bytes × Option (Oid × Bytes))
  unfolding delta_bytes
  write_chunk version node_id p q changeset previous always_previous =
      let raw_object = f node_id in
      let d = delta version p q previous always_previous raw_object in
      let len = 4 + length d.1 + 80 + (if version == 2 then 20 else 0) in
      if ltb len (2 ^ 32)
      then some (
        write_u32 len
            ++ (node_id.raw
                ++ (p.raw ++ (q.raw ++ (delta_bytes version d.0 ++ (changeset.raw ++ d.1))))),
        some (node_id, raw_object),
      )
      else none
