-- ===== src/Manifest/RoundTrip.antt =====
-- A manifest reads back as it was written (src/hg/manifest.rs).
use git_cinnabar.Common.{
  ℕ, ◌+◌, ltb, false, ◌≡◌, ◌≢◌, ◌*◌, ◌<◌, refl, List, [], ◌∷◌, ◌++◌, Bytes, All, All-map, Lacks,
  some, length, take-append, drop-append, append_assoc, length-append, ok, arith,
}
use git_cinnabar.Oid.{Oid, display, hex_bytes}
use git_cinnabar.Oid.Hex.{HexCrate}
use git_cinnabar.Oid.RoundTrip.{IsOid, from_str-display}
use git_cinnabar.Tree.{WithPath, with_path}
use git_cinnabar.Tree.Parse.{IsReadBack, entries, new, write_entries, entries-write_entries}
use git_cinnabar.Util.{splitn_exact_2}
use git_cinnabar.Util.Splits.{split_once-append}
use git_cinnabar.Manifest.{
  HgFileAttr, ManifestEntry, as_bstr, attr_from_bytes, parse_one_entry, parse_fid, write_one_entry,
  raw_hg_manifest,
}

pub attr_from_bytes-as_bstr : (a : HgFileAttr) → attr_from_bytes (as_bstr a) ≡ some a
unfolding attr_from_bytes as_bstr
attr_from_bytes-as_bstr HgFileAttr.regular_file = refl
attr_from_bytes-as_bstr HgFileAttr.executable = refl
attr_from_bytes-as_bstr HgFileAttr.symbolic_link = refl

as_bstr-Lacks : (a : HgFileAttr) → Lacks b'\n' (as_bstr a)
unfolding as_bstr
as_bstr-Lacks HgFileAttr.regular_file = tt
as_bstr-Lacks HgFileAttr.executable = ground arith
as_bstr-Lacks HgFileAttr.symbolic_link = ground arith

length-hex_bytes : (b : Bytes) → length (hex_bytes b) ≡ 2 * length b
unfolding hex_bytes
length-hex_bytes [] = refl
length-hex_bytes (x ∷ b) = omega (arith, length-hex_bytes b)

pub length-display : (o : Oid) → IsOid o → length (display o) ≡ 40
unfolding display
length-display o v = omega (arith, length-hex_bytes o.raw, v.size)

-- An entry of a manifest: its id is an id, and its path has no zero byte.
pub record IsManifestEntry (e : WithPath ManifestEntry) : Type 0 where
  pub fid : IsOid e.inner.fid
  pub path : Lacks 0 e.path

not_short : (n : ℕ) → ltb (40 + n) 40 ≡ false
not_short n = ground arith

path-ne-nil : (path rest : Bytes) → path ++ 0 ∷ rest ≢ []
path-ne-nil [] rest = λ h. cc
path-ne-nil (c ∷ path) rest = λ h. cc

module _ (hex : HexCrate) where
  parse_fid-display :
      (path rest : Bytes) (fid : Oid) (attr : HgFileAttr)
      → IsOid fid
      → parse_fid hex path (display fid ++ (as_bstr attr ++ b'\n' ∷ rest))
        ≡ ok (with_path path (record { fid = fid; attr = attr }), rest)
  unfolding parse_fid splitn_exact_2
  parse_fid-display path rest fid attr v =
      let text = as_bstr attr ++ b'\n' ∷ rest in
      let size = length-display fid v in
      rw (
        length-append (display fid) text,
        size,
        not_short (length text),
        take-append 40 (display fid) text size,
        from_str-display hex fid v,
        drop-append 40 (display fid) text size,
        split_once-append b'\n' (as_bstr attr) rest (as_bstr-Lacks attr),
        attr_from_bytes-as_bstr attr,
      )

  write_one_entry-IsReadBack :
      (e : WithPath ManifestEntry)
      → IsManifestEntry e
      → IsReadBack (raw_hg_manifest hex) write_one_entry e
  unfolding raw_hg_manifest parse_one_entry write_one_entry splitn_exact_2 with_path
  write_one_entry-IsReadBack e v = record {
    read_back = λ rest. rw (
      append_assoc e.path (0 ∷ (display e.inner.fid ++ (as_bstr e.inner.attr ++ b'\n' ∷ []))) rest,
      append_assoc (display e.inner.fid) (as_bstr e.inner.attr ++ b'\n' ∷ []) rest,
      append_assoc (as_bstr e.inner.attr) (b'\n' ∷ []) rest,
      parse_one_entry,
      splitn_exact_2,
      split_once-append 0 e.path (display e.inner.fid ++ (as_bstr e.inner.attr ++ b'\n' ∷ rest))
          v.path,
      parse_fid-display e.path rest e.inner.fid e.inner.attr v.fid,
    );
    not_empty = path-ne-nil e.path _;
  }

  -- The entries that are written as a manifest are the entries that it is read to, in order, where
  -- each has an id and a path without a zero byte, and the fuel is more than their number.
  pub manifest_round_trip :
      (es : List (WithPath ManifestEntry)) (fuel : ℕ)
      → All IsManifestEntry es
      → length es < fuel
      → entries ⦃format = raw_hg_manifest hex⦄ fuel (new (write_entries write_one_entry es)) ≡ ok es
  manifest_round_trip es fuel v =
      entries-write_entries ⦃format = raw_hg_manifest hex⦄ write_one_entry es fuel (
        All-map IsManifestEntry (IsReadBack (raw_hg_manifest hex) write_one_entry)
          write_one_entry-IsReadBack es v)
