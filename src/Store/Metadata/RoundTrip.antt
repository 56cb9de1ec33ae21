-- ===== src/Store/Metadata/RoundTrip.antt =====
-- The text of a changeset's metadata is parsed as that metadata (src/store.rs).
use git_cinnabar.Common.{
  ℕ, zero, suc, ◌/◌, ◌%◌, ◌≤◌, ◌≡◌, refl, ap, sym, ◌∙◌, inl, inr, true, List, [], ◌∷◌, ◌++◌, Bytes,
  codes, Option, none, some, if◌then◌else◌, bytes_eq, Lacks, All, All-append, All-map, length,
  append_assoc, Bool-cases, arith,
}
use git_cinnabar.Util.Splits.{split_once-append}
use git_cinnabar.Oid.{Oid, null_oid, zeros, all_zero, is_null, display, hex_bytes}
use git_cinnabar.Oid.Hex.{HexCrate, hex_digit}
use git_cinnabar.Oid.RoundTrip.{IsOid, from_str-display}
use git_cinnabar.Store.Lines.{Bstr, newline, trim_cr, IsLine, lines-join}
use git_cinnabar.Store.Metadata.{
  GitChangesetMetadata, Fields, no_fields, unwrap_or, parse_lines, parse, serialize,
}
use git_cinnabar.Store.Metadata.Text.{field_lines, manifest_lines, later_lines, serialize-join}

-- A value that is read back as it was written.
abbrev pub IsValue : Option Bytes → Type 0
IsValue none = Unit
IsValue (some v) = Lacks newline v × (trim_cr v ≡ v)

pub record IsMetadata (m : GitChangesetMetadata) : Type 0 where
  pub changeset : IsOid m.changeset_id
  pub manifest : IsOid m.manifest_id
  pub author : IsValue m.author
  pub extra : IsValue m.extra
  pub files : IsValue m.files
  pub patch : IsValue m.patch

trim_cr-append : (k v : Bytes) → trim_cr v ≡ v → trim_cr (k ++ b' ' ∷ v) ≡ k ++ b' ' ∷ v
trim_cr-append [] [] h = refl
trim_cr-append [] (d ∷ v) h = ap (◌∷◌ b' ') h
trim_cr-append (a ∷ []) v h = ap (◌∷◌ a) (trim_cr-append [] v h)
trim_cr-append (a ∷ (b ∷ k)) v h = ap (◌∷◌ a) (trim_cr-append (b ∷ k) v h)

pub field-IsLine :
    (c : ℕ) (k v : Bytes)
    → Lacks newline (c ∷ (k ++ b' ' ∷ []))
    → Lacks newline v
    → trim_cr v ≡ v
    → IsLine (c ∷ (k ++ b' ' ∷ v))
field-IsLine c k v hk hv t = (
  (hk.0, rw (append_assoc k (b' ' ∷ []) v) at (All-append _ (k ++ b' ' ∷ []) v hk.1 hv)),
  trim_cr-append (c ∷ k) v t,
)

hex_digit-ge : (d : ℕ) → 48 ≤ hex_digit d
hex_digit-ge d = ground arith

hex_bytes-ge : (bs : Bytes) → All (λ c. 48 ≤ c) (hex_bytes bs)
unfolding hex_bytes
hex_bytes-ge [] = tt
hex_bytes-ge (b ∷ bs) = (hex_digit-ge (b / 16), (hex_digit-ge (b % 16), hex_bytes-ge bs))

trim_cr-ge : (v : Bytes) → All (λ c. 48 ≤ c) v → trim_cr v ≡ v
trim_cr-ge [] h = refl
trim_cr-ge (c ∷ []) (h, _) = ground arith
trim_cr-ge (c ∷ (d ∷ v)) (_, h) = ap (◌∷◌ c) (trim_cr-ge (d ∷ v) h)

pub display-IsValue : (o : Oid) → IsValue (some (display o))
unfolding display
display-IsValue o =
    let ge = hex_bytes-ge o.raw in
    (
      All-map _ _ (λ c h e. absurd (omega arith)) (hex_bytes o.raw) ge,
      trim_cr-ge (hex_bytes o.raw) ge,
    )

all_zero-eq : (n : ℕ) (r : Bytes) → length r ≡ n → all_zero r ≡ true → r ≡ zeros n
unfolding all_zero
all_zero-eq zero [] l h = refl
all_zero-eq zero (b ∷ r) l h = absurd (omega arith)
all_zero-eq (suc n) [] l h = absurd (omega arith)
all_zero-eq (suc n) (b ∷ r) l h = ground (arith, all_zero-eq n r)

is_null-eq : (o : Oid) → length o.raw ≡ 20 → is_null o ≡ true → o ≡ null_oid
unfolding is_null
is_null-eq o l h = ap (λ r. record { raw = r }) (all_zero-eq 20 o.raw l h)

-- A field that is there or not, with lines behind it.
optional-IsLine :
    (c : ℕ) (k : Bytes) (o : Option Bytes)
    → Lacks newline (c ∷ (k ++ b' ' ∷ []))
    → IsValue o
    → All IsLine (field_lines (c ∷ (k ++ b' ' ∷ [])) o)
optional-IsLine c k none hk h = tt
optional-IsLine c k (some v) hk (h, t) =
    (rw (append_assoc k (b' ' ∷ []) v) (field-IsLine c k v hk h t), tt)

manifest-IsLine : (o : Oid) → All IsLine (manifest_lines o)
unfolding manifest_lines
manifest-IsLine o = elim (Bool-cases (is_null o)) [
  | inl e ↦ rw (e) tt
  | inr e ↦
      let (lacks, t) = display-IsValue o in
      rw (e) (field-IsLine b'm' (codes "anifest") (display o) (omega arith) lacks t, tt)
]

later-IsLine : (m : GitChangesetMetadata) → IsMetadata m → All IsLine (later_lines m)
unfolding later_lines manifest_lines
later-IsLine m v =
    All-append IsLine (manifest_lines m.manifest_id) _ (manifest-IsLine m.manifest_id) (
      All-append IsLine (field_lines (codes "author ") m.author) _
        (optional-IsLine b'a' (codes "uthor") m.author (omega arith) v.author)
        (All-append IsLine (field_lines (codes "extra ") m.extra) _
          (optional-IsLine b'e' (codes "xtra") m.extra (omega arith) v.extra)
          (All-append IsLine (field_lines (codes "files ") m.files) _
            (optional-IsLine b'f' (codes "iles") m.files (omega arith) v.files)
            (optional-IsLine b'p' (codes "atch") m.patch (omega arith) v.patch))))

module _ (hex : HexCrate) where
  abbrev fields :
      Oid → Option Oid → Option Bytes → Option Bytes → Option Bytes → Option Bytes → Fields
  fields c m a e f p = record {
    changeset = some c;
    manifest = m;
    author = a;
    extra = e;
    files = f;
    patch = p;
  }

  changeset_line :
      (c : Oid) (rest : List Bytes)
      → IsOid c
      → parse_lines hex ((codes "changeset " ++ display c) ∷ rest) no_fields
        ≡ parse_lines hex rest (fields c none none none none none)
  unfolding parse_lines bytes_eq
  changeset_line c rest v = rw (
    parse_lines,
    split_once-append b' ' (codes "changeset") (display c) (omega arith),
    from_str-display hex c v,
  )

  manifest_line :
      (c m : Oid) (rest : List Bytes)
      → IsOid m
      → parse_lines hex (manifest_lines m ++ rest) (fields c none none none none none)
        ≡ parse_lines hex rest (fields c (if is_null m then none else some m) none none none none)
  unfolding parse_lines bytes_eq manifest_lines
  manifest_line c m rest v = elim (Bool-cases (is_null m)) [
    | inl e ↦ rw (e) refl
    | inr e ↦ rw (e) (
        rw (
          split_once-append b' ' (codes "manifest") (display m) (omega arith),
          from_str-display hex m v,
        ))
  ]

  author_line :
      (c : Oid) (m : Option Oid) (o : Option Bytes) (rest : List Bytes)
      → parse_lines hex (field_lines (codes "author ") o ++ rest) (fields c m none none none none)
        ≡ parse_lines hex rest (fields c m o none none none)
  unfolding parse_lines bytes_eq
  author_line c m none rest = refl
  author_line c m (some a) rest =
      rw (parse_lines, split_once-append b' ' (codes "author") a (omega arith))

  extra_line :
      (c : Oid) (m : Option Oid) (a o : Option Bytes) (rest : List Bytes)
      → parse_lines hex (field_lines (codes "extra ") o ++ rest) (fields c m a none none none)
        ≡ parse_lines hex rest (fields c m a o none none)
  unfolding parse_lines bytes_eq
  extra_line c m a none rest = refl
  extra_line c m a (some e) rest =
      rw (parse_lines, split_once-append b' ' (codes "extra") e (omega arith))

  files_line :
      (c : Oid) (m : Option Oid) (a e o : Option Bytes) (rest : List Bytes)
      → parse_lines hex (field_lines (codes "files ") o ++ rest) (fields c m a e none none)
        ≡ parse_lines hex rest (fields c m a e o none)
  unfolding parse_lines bytes_eq
  files_line c m a e none rest = refl
  files_line c m a e (some f) rest =
      rw (parse_lines, split_once-append b' ' (codes "files") f (omega arith))

  patch_line :
      (c : Oid) (m : Option Oid) (a e f o : Option Bytes)
      → parse_lines hex (field_lines (codes "patch ") o) (fields c m a e f none)
        ≡ some (fields c m a e f o)
  unfolding parse_lines bytes_eq
  patch_line c m a e f none = refl
  patch_line c m a e f (some p) =
      rw (parse_lines, split_once-append b' ' (codes "patch") p (omega arith))

  all_lines :
      (m : GitChangesetMetadata)
      → IsMetadata m
      → parse_lines hex ((codes "changeset " ++ display m.changeset_id) ∷ later_lines m) no_fields
        ≡ some (
            fields m.changeset_id
              (if is_null m.manifest_id then none else some m.manifest_id)
              m.author
              m.extra
              m.files
              m.patch)
  unfolding later_lines
  all_lines m v =
      let found = if is_null m.manifest_id then none else some m.manifest_id in
      changeset_line m.changeset_id (later_lines m) v.changeset
      ∙ manifest_line m.changeset_id m.manifest_id _ v.manifest
      ∙ author_line m.changeset_id found m.author _
      ∙ extra_line m.changeset_id found m.author m.extra _
      ∙ files_line m.changeset_id found m.author m.extra m.files _
      ∙ patch_line m.changeset_id found m.author m.extra m.files m.patch

  found_manifest : (o : Oid) → IsOid o → unwrap_or (if is_null o then none else some o) null_oid ≡ o
  found_manifest o v = elim (Bool-cases (is_null o)) [
    | inl e ↦ rw (e) (sym (is_null-eq o v.size e))
    | inr e ↦ rw (e)
  ]

  -- The text of the metadata of a changeset is parsed as that metadata, if its ids have twenty bytes
  -- and its values no newline, and no carriage return at their end.
  pub parse-serialize :
      (b : Bstr) (m : GitChangesetMetadata) → IsMetadata m → parse hex b (serialize m) ≡ some m
  unfolding parse
  parse-serialize b m v =
      let (lacks, t) = display-IsValue m.changeset_id in
      let first =
        field-IsLine b'c' (codes "hangeset") (display m.changeset_id) (omega arith) lacks t in
      rw (
        serialize-join m,
        lines-join b (codes "changeset " ++ display m.changeset_id) (later_lines m)
            (first, later-IsLine m v),
        all_lines m v,
        found_manifest m.manifest_id v.manifest,
      )
