-- ===== src/Bundle/Stream.antt =====
-- src/hg_bundle.rs: `BundleReader::next_part` and `BundleWriter::new_part`, the parts of a bundle one
-- behind the other, uncompressed.
pub mod Skip
pub mod Parts
use git_cinnabar.Common.{
  ℕ, zero, suc, ◌+◌, ◌%◌, ◌^◌, Bool, true, false, List, [], ◌∷◌, ◌++◌, Bytes, codes, Option, none,
  some, ◌>>=◌, ◌>>◌, guard, ◌==◌, leb, if◌then◌else◌, is_empty, length, drop, bytes_eq, ◌&&◌,
}
use git_cinnabar.Bundle.{read_u32, read_bundle2_chunk, write_bundle2_chunk, skip_bundle2_chunk}
use git_cinnabar.Bundle.Info.{Unicode, BundlePartInfo, get_param, new, read_from, write_into}
use git_cinnabar.Bundle.Spec.{BundleVersion}

-- `remaining` is what is left of the chunk that is being read, and `none` once there is no part left.
pub record BundleReader : Type 0 where
  pub reader : Bytes
  pub version : BundleVersion
  pub remaining : Option ℕ

-- `while skip_bundle2_chunk(..)? > 0 {}`; `none` is an error, or fuel that was not enough.
unfoldable pub skip_chunks : ℕ → Bytes → Option Bytes
skip_chunks zero reader = none
skip_chunks (suc fuel) reader = skip_bundle2_chunk reader >>= λ s.
    let rest = skip_chunks fuel s.1 in if s.0 == 0 then some s.1 else rest

-- A part that was not read to its end is skipped. The first version asserts that there is none.
advance : BundleVersion → ℕ → Bytes → Option Bytes
advance version zero reader = some reader
advance BundleVersion.v1 (suc len) reader = none
advance BundleVersion.v2 (suc len) reader =
    let left = drop (suc len) reader in skip_chunks (suc (length left)) left

module _ (unicode : Unicode) where
  -- The header of the next part, which is empty at the end of the bundle.
  next_header : BundleVersion → Bytes → Option (Option BundlePartInfo × BundleReader)
  next_header BundleVersion.v1 reader = some (
    some (new unicode 0 (codes "changegroup")),
    record { reader = reader; version = BundleVersion.v1; remaining = none },
  )
  next_header BundleVersion.v2 reader = read_bundle2_chunk reader >>= λ h.
      if is_empty h.0
      then some (none, record { reader = h.1; version = BundleVersion.v2; remaining = none })
      else (read_u32 h.1 >>= λ n. read_from unicode h.0 >>= λ info.
          some (
            some info.0,
            record { reader = n.1; version = BundleVersion.v2; remaining = some n.0 },
          ))

  unfoldable pub next_part : BundleReader → Option (Option BundlePartInfo × BundleReader)
  unfolding advance next_header
  next_part r = elim r.remaining [
    | none ↦ some (none, r)
    | some len ↦ advance r.version len r.reader >>= λ left. next_header r.version left
  ]

pub record BundleWriter : Type 0 where
  pub writer : Bytes
  pub version : BundleVersion
  pub last_part_id : Option ℕ

-- The least id that the next part may have, a u32 that wraps around.
next_id : Option ℕ → ℕ
next_id none = 0
next_id (some id) = (id + 1) % 2 ^ 32

is_none : Option ℕ → Bool
is_none none = true
is_none (some id) = false

is_version_01 : Option Bytes → Bool
is_version_01 none = false
is_version_01 (some version) = bytes_eq version (codes "01")

-- `none` is an assertion that fails.
unfoldable pub new_part : Unicode → BundleWriter → BundlePartInfo → Option BundleWriter
unfolding next_id is_none is_version_01
new_part unicode w info = elim w.version [
  | BundleVersion.v1 ↦
      guard (
        is_none w.last_part_id
        && (bytes_eq info.part_type (codes "changegroup")
            && (is_version_01 (get_param (codes "version") info.params)
                && length info.params == 1)))
      >> some (record w { last_part_id = some info.part_id })
  | BundleVersion.v2 ↦
      guard (leb (next_id w.last_part_id) info.part_id)
      >> (write_into unicode info >>= λ header. write_bundle2_chunk header >>= λ chunk.
          some (record w { writer = w.writer ++ chunk; last_part_id = some info.part_id }))
]

-- `Drop`: the second version ends with an empty header.
unfoldable pub drop_bundle : BundleWriter → Option Bytes
drop_bundle w = elim w.version [
  | BundleVersion.v1 ↦ some w.writer
  | BundleVersion.v2 ↦ do ending ← write_bundle2_chunk []; some (w.writer ++ ending)
]
