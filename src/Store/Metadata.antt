-- ===== src/Store/Metadata.antt =====
-- src/store.rs: `GitChangesetMetadata` and its text, which is kept in a note of the commit. `none` is
-- an error, or the panic of an id that is not UTF-8. The lines are those of the crate `bstr`.
pub mod Extra
pub mod Text
pub mod RoundTrip
use git_cinnabar.Common.{
  ℕ, zero, suc, Bool, true, false, List, [], ◌∷◌, ◌++◌, Bytes, codes, Option, none, some, ◌>>=◌,
  ◌==◌, if◌then◌else◌, bytes_eq,
}
use git_cinnabar.Util.{splitn_exact_2, split}
use git_cinnabar.Oid.{Oid, null_oid, is_null, display, from_str}
use git_cinnabar.Oid.Hex.{HexCrate}
use git_cinnabar.Store.Lines.{Bstr, newline}

pub record GitChangesetMetadata : Type 0 where
  pub changeset_id : Oid
  pub manifest_id : Oid
  pub author : Option Bytes
  pub extra : Option Bytes
  pub files : Option Bytes
  pub patch : Option Bytes

-- The variables of `parse`.
pub record Fields : Type 0 where
  pub changeset : Option Oid
  pub manifest : Option Oid
  pub author : Option Bytes
  pub extra : Option Bytes
  pub files : Option Bytes
  pub patch : Option Bytes

abbrev pub no_fields : Fields
no_fields = record {
  changeset = none;
  manifest = none;
  author = none;
  extra = none;
  files = none;
  patch = none;
}

abbrev pub unwrap_or : Option Oid → Oid → Oid
unwrap_or none o = o
unwrap_or (some x) o = x

module _ (hex : HexCrate) where
  unfoldable pub parse_field : Bytes → Bytes → Fields → Option Fields
  unfolding from_str
  parse_field key value f =
      if bytes_eq key (codes "changeset")
      then (from_str hex value >>= λ c. some (record f { changeset = some c }))
      else if bytes_eq key (codes "manifest")
      then (from_str hex value >>= λ m. some (record f { manifest = some m }))
      else if bytes_eq key (codes "author")
      then some (record f { author = some value })
      else if bytes_eq key (codes "extra")
      then some (record f { extra = some value })
      else if bytes_eq key (codes "files")
      then some (record f { files = some value })
      else if bytes_eq key (codes "patch")
      then some (record f { patch = some value })
      else none

  unfoldable pub parse_lines : List Bytes → Fields → Option Fields
  unfolding parse_field splitn_exact_2
  parse_lines [] f = some f
  parse_lines (line ∷ lines) f =
      splitn_exact_2 b' ' line >>= λ parts. parse_field parts.0 parts.1 f >>= parse_lines lines

  -- `RawGitChangesetMetadata::parse`.
  unfoldable pub parse : Bstr → Bytes → Option GitChangesetMetadata
  unfolding parse_lines
  parse b text = do
    f ← parse_lines (b.lines text) no_fields
    c ← f.changeset
    some (record {
      changeset_id = c;
      manifest_id = unwrap_or f.manifest null_oid;
      author = f.author;
      extra = f.extra;
      files = f.files;
      patch = f.patch;
    })

abbrev pub line : Bytes → Bytes → Bytes
line key value = key ++ (value ++ newline ∷ [])

abbrev pub field_line : Bytes → Option Bytes → Bytes
field_line key none = []
field_line key (some value) = line key value

-- `Vec::pop`.
unfoldable pub pop : Bytes → Bytes
pop [] = []
pop (c ∷ []) = []
pop (c ∷ (d ∷ cs)) = c ∷ pop (d ∷ cs)

-- The lines, each with its newline.
unfoldable pub buffer : GitChangesetMetadata → Bytes
buffer m =
    line (codes "changeset ") (display m.changeset_id)
    ++ ((if is_null m.manifest_id then [] else line (codes "manifest ") (display m.manifest_id))
        ++ (field_line (codes "author ") m.author
            ++ (field_line (codes "extra ") m.extra
                ++ (field_line (codes "files ") m.files ++ field_line (codes "patch ") m.patch))))

unfoldable pub serialize : GitChangesetMetadata → Bytes
unfolding buffer pop
serialize m = pop (buffer m)

-- `GitChangesetMetadata::files`: no files, where splitting nothing would give an empty name.
unfoldable pub files : GitChangesetMetadata → List Bytes
files m = elim m.files [ none ↦ [] | some names ↦ split 0 names ]
