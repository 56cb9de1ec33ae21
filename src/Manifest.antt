-- ===== src/Manifest.antt =====
-- src/hg/manifest.rs: file attributes, and the entries of a raw manifest.
pub mod RoundTrip
use git_cinnabar.Common.{
  ℕ, Bool, true, false, ◌&&◌, [], ◌∷◌, ◌++◌, Bytes, codes, Option, none, some, ◌==◌, ltb,
  if◌then◌else◌, length, take, drop, Outcome, ok, error, panic,
}
use git_cinnabar.FileMode.{regular, symlink, rw_mode, rwx_mode, none_mode, typ, perms}
use git_cinnabar.Oid.{Oid, display, from_str}
use git_cinnabar.Oid.Hex.{HexCrate}
use git_cinnabar.Tree.{WithPath, MayRecurse, with_path}
use git_cinnabar.Tree.Parse.{ParseTree}
use git_cinnabar.Util.{splitn_exact_2}
use git_cinnabar.Util.Utf8.{is_utf8}

pub data HgFileAttr : Type 0 where
  regular_file : HgFileAttr
  executable : HgFileAttr
  symbolic_link : HgFileAttr

pub record ManifestEntry : Type 0 where
  pub fid : Oid
  pub attr : HgFileAttr

-- An entry of a manifest is a file.
instance pub entry_may_recurse : MayRecurse ManifestEntry
entry_may_recurse = record { may_recurse = λ e. false }

unfoldable pub as_bstr : HgFileAttr → Bytes
as_bstr regular_file = []
as_bstr executable = b'x' ∷ []
as_bstr symbolic_link = b'l' ∷ []

unfoldable pub attr_from_bytes : Bytes → Option HgFileAttr
attr_from_bytes [] = some regular_file
attr_from_bytes (c ∷ []) =
    if c == b'x' then some executable else if c == b'l' then some symbolic_link else none
attr_from_bytes (c ∷ (d ∷ cs)) = none

-- `TryFrom<FileMode>`.
unfoldable pub attr_from_mode : ℕ → Option HgFileAttr
attr_from_mode mode =
    if typ mode == regular && perms mode == rw_mode
    then some regular_file
    else if typ mode == regular && perms mode == rwx_mode
    then some executable
    else if typ mode == symlink && perms mode == none_mode
    then some symbolic_link
    else none

unfoldable pub write_one_entry : WithPath ManifestEntry → Bytes
write_one_entry e = e.path ++ 0 ∷ (display e.inner.fid ++ (as_bstr e.inner.attr ++ b'\n' ∷ []))

module _ (hex : HexCrate) where
  -- Behind the path: the id, where an index out of bounds and bytes that are not UTF-8 panic, and the
  -- attribute.
  parse_fid : Bytes → Bytes → Outcome (WithPath ManifestEntry × Bytes)
  unfolding is_utf8
  parse_fid path remainder =
      if ltb (length remainder) 40 then panic else elim (from_str hex (take 40 remainder)) [
        | none ↦ if is_utf8 (take 40 remainder) then error else panic
        | some fid ↦ elim (splitn_exact_2 b'\n' (drop 40 remainder)) [
          | none ↦ error
          | some (mode, rest) ↦ elim (attr_from_bytes mode) [
            | none ↦ error
            | some attr ↦ ok (with_path path (record { fid = fid; attr = attr }), rest)
          ]
        ]
      ]

  unfoldable pub parse_one_entry : Bytes → Outcome (WithPath ManifestEntry × Bytes)
  unfolding parse_fid
  parse_one_entry buf = elim (splitn_exact_2 0 buf) [
    | none ↦ error
    | some (path, remainder) ↦ parse_fid path remainder
  ]

  unfoldable pub raw_hg_manifest : ParseTree ManifestEntry
  raw_hg_manifest = record { parse_one_entry = parse_one_entry }
