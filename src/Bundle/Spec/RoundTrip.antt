-- ===== src/Bundle/Spec/RoundTrip.antt =====
-- Specs are parsed as they print, and the header of a bundle says what its spec says
-- (src/hg_bundle.rs).
use git_cinnabar.Common.{
  ◌≡◌, ◌≢◌, ◌<◌, ◌^◌, refl, ap, sym, ◌∙◌, false, List, [], ◌∷◌, ◌++◌, Bytes, codes, Option, none,
  some, ◌>>=◌, bytes_eq, bytes_eq_iff, Bool-cases, inl, inr, ◌⊎◌, ◌↔◌, length, arith, Option-cases,
}
use git_cinnabar.Bundle.{write_u32}
use git_cinnabar.Bundle.Chunk.{read_exactly-append, read_bundle2_chunk-frame}
use git_cinnabar.Bundle.Spec.{
  BundleVersion, BundleSpec, SpecError, Compression, lookup, specs, from_str, fmt, header,
  version_of, encoder_of, find_compression, decoder_v2, new_bundlev1, new_bundlev2, open_bundle,
}
use git_cinnabar.Util.{splitn_exact_2, split, split_once}

fmt-from_str :
    (spec : BundleSpec) → spec ≢ BundleSpec.changegroup_v1 → from_str (fmt spec) ≡ inl spec
unfolding from_str fmt lookup bytes_eq
fmt-from_str BundleSpec.changegroup_v1 ne = absurd (ne refl)
fmt-from_str BundleSpec.v1_none ne = refl
fmt-from_str BundleSpec.v1_gzip ne = refl
fmt-from_str BundleSpec.v1_bzip ne = refl
fmt-from_str BundleSpec.v2_none ne = refl
fmt-from_str BundleSpec.v2_gzip ne = refl
fmt-from_str BundleSpec.v2_bzip ne = refl
fmt-from_str BundleSpec.v2_zstd ne = refl

-- Every arm of the table is an arm of `fmt`.
Prints : List (Bytes × BundleSpec) → Type 0
Prints [] = Unit
Prints ((t, spec) ∷ rest) = (fmt spec ≡ t) × (spec ≢ BundleSpec.changegroup_v1) × Prints rest

lookup-Prints :
    (table : List (Bytes × BundleSpec)) (s : Bytes) (spec : BundleSpec)
    → Prints table
    → lookup table s ≡ some spec
    → (fmt spec ≡ s) × (spec ≢ BundleSpec.changegroup_v1)
unfolding lookup Prints
lookup-Prints [] s spec p h = cc
lookup-Prints ((t, found) ∷ table) s spec (e, ne, p) h = elim (Bool-cases (bytes_eq s t)) [
  | inl same ↦
      let here : found ≡ spec = some-injective (rw same at h) in
      rw (← here) (e ∙ sym ((bytes_eq_iff s t).0 same), ne)
  | inr other ↦ lookup-Prints table s spec p (rw other at h)
]
  where
    some-injective : {a b : BundleSpec} → some a ≡ some b → a ≡ b
    some-injective h = cc

specs-Prints : Prints specs
unfolding Prints fmt
specs-Prints = ground arith

inl-injective : {a b : BundleSpec} → ◌≡◌ {A = BundleSpec ⊎ SpecError} (inl a) (inl b) → a ≡ b
inl-injective h = cc

inr-ne-inl : {a : BundleSpec} {e : SpecError} → ◌≡◌ {A = BundleSpec ⊎ SpecError} (inr e) (inl a) → ⊥
inr-ne-inl h = cc

lookup-from_str :
    (s : Bytes) (spec : BundleSpec) → from_str s ≡ inl spec → lookup specs s ≡ some spec
unfolding from_str
lookup-from_str s spec h = elim (Option-cases (lookup specs s)) [
  | inl missing ↦ absurd (inr-ne-inl (rw (from_str, missing) at h))
  | inr (found, e) ↦ e ∙ ap some (inl-injective (rw (from_str, e) at h))
]

-- A text is parsed as a spec exactly if it is what the spec prints as, and the spec is not that of a
-- bare changegroup, which prints as `raw` and is not parsed.
pub from_str_iff :
    (s : Bytes) (spec : BundleSpec)
    → (from_str s ≡ inl spec) ↔ ((fmt spec ≡ s) × (spec ≢ BundleSpec.changegroup_v1))
from_str_iff s spec = (
  λ h. lookup-Prints specs s spec specs-Prints (lookup-from_str s spec h),
  λ h. ap from_str (sym h.0) ∙ fmt-from_str spec h.1,
)

-- What comes behind a header: bzip2 writes its own magic, and a bare changegroup has no header, so
-- that its first four bytes must not look like one.
abbrev pub IsBody : BundleSpec → Bytes → Type 0
IsBody BundleSpec.changegroup_v1 body =
    (initial : Bytes) × (rest : Bytes) × (body ≡ initial ++ rest)
    × (length initial ≡ 4)
    × (initial ≢ codes "HG20")
    × (initial ≢ codes "HG10")
IsBody BundleSpec.v1_bzip body = (rest : Bytes) × (body ≡ codes "BZ" ++ rest)
IsBody _ body = Unit

bytes_eq-ne : (a b : Bytes) → a ≢ b → bytes_eq a b ≡ false
bytes_eq-ne a b ne = elim (Bool-cases (bytes_eq a b)) [
  | inl same ↦ absurd (ne ((bytes_eq_iff a b).0 same))
  | inr other ↦ other
]

open_v1 :
    (c body : Bytes)
    → length c ≡ 2
    → open_bundle (codes "HG10" ++ (c ++ body)) ≡ new_bundlev1 (c ++ body)
unfolding open_bundle bytes_eq
open_v1 c body h = rw (read_exactly-append (codes "HG10") (c ++ body))

open_v2 :
    (chunk body : Bytes) (param : Option Bytes)
    → length chunk < 2 ^ 32
    → find_compression (split b' ' chunk) ≡ param
    → open_bundle (codes "HG20" ++ (write_u32 (length chunk) ++ (chunk ++ body)))
      ≡ (decoder_v2 param >>= λ decoder. some (BundleVersion.v2, decoder, body))
unfolding open_bundle bytes_eq new_bundlev2
open_v2 chunk body param h e = rw (
  read_exactly-append (codes "HG20") (write_u32 (length chunk) ++ (chunk ++ body)),
  read_bundle2_chunk-frame chunk body h,
  e,
)

open_raw :
    (initial rest : Bytes)
    → length initial ≡ 4
    → initial ≢ codes "HG20"
    → initial ≢ codes "HG10"
    → open_bundle (initial ++ rest) ≡ some (BundleVersion.v1, Compression.plain, initial ++ rest)
unfolding open_bundle
open_raw initial rest size ne ne' = rw (
  ← size,
  read_exactly-append initial rest,
  bytes_eq-ne initial (codes "HG20") ne,
  bytes_eq-ne initial (codes "HG10") ne',
)

no_param : find_compression (split b' ' []) ≡ none
unfolding find_compression split splitn_exact_2 split_once
no_param = refl

gz_param : find_compression (split b' ' (codes "Compression=GZ")) ≡ some (codes "GZ")
unfolding find_compression split splitn_exact_2 split_once bytes_eq
gz_param = refl

bz_param : find_compression (split b' ' (codes "Compression=BZ")) ≡ some (codes "BZ")
unfolding find_compression split splitn_exact_2 split_once bytes_eq
bz_param = refl

zs_param : find_compression (split b' ' (codes "Compression=ZS")) ≡ some (codes "ZS")
unfolding find_compression split splitn_exact_2 split_once bytes_eq
zs_param = refl

v1_un :
    (body : Bytes)
    → new_bundlev1 (codes "UN" ++ body) ≡ some (BundleVersion.v1, Compression.plain, body)
unfolding new_bundlev1 bytes_eq
v1_un body = rw (read_exactly-append (codes "UN") body)

v1_gz :
    (body : Bytes)
    → new_bundlev1 (codes "GZ" ++ body) ≡ some (BundleVersion.v1, Compression.zlib, body)
unfolding new_bundlev1 bytes_eq
v1_gz body = rw (read_exactly-append (codes "GZ") body)

v1_bz :
    (body : Bytes)
    → new_bundlev1 (codes "BZ" ++ body)
      ≡ some (BundleVersion.v1, Compression.bzip, codes "BZ" ++ body)
unfolding new_bundlev1 bytes_eq
v1_bz body = rw (read_exactly-append (codes "BZ") body)

-- A bundle that starts with the header of a spec is opened with the version and the compression of
-- the spec, and what is left is what is behind the header; where that starts with `BZ` for bzip2 in
-- the first version, and, for a bare changegroup, has four bytes at least that are no header.
pub open_bundle-header :
    (spec : BundleSpec) (body : Bytes)
    → IsBody spec body
    → open_bundle (header spec ++ body) ≡ some (version_of spec, encoder_of spec, body)
unfolding header version_of encoder_of write_u32 decoder_v2 bytes_eq
open_bundle-header BundleSpec.changegroup_v1 body (initial, rest, e, size, ne, ne') =
    ap open_bundle e
    ∙ open_raw initial rest size ne ne'
    ∙ ap (λ b. some (BundleVersion.v1, Compression.plain, b)) (sym e)
open_bundle-header BundleSpec.v1_none body h = open_v1 (codes "UN") body refl ∙ v1_un body
open_bundle-header BundleSpec.v1_gzip body h = open_v1 (codes "GZ") body refl ∙ v1_gz body
open_bundle-header BundleSpec.v1_bzip body (rest, e) =
    ap (λ b. open_bundle (codes "HG10" ++ b)) e
    ∙ open_v1 (codes "BZ") rest refl
    ∙ v1_bz rest
    ∙ ap (λ b. some (BundleVersion.v1, Compression.bzip, b)) (sym e)
open_bundle-header BundleSpec.v2_none body h = open_v2 [] body none (omega arith) no_param
open_bundle-header BundleSpec.v2_gzip body h =
    open_v2 (codes "Compression=GZ") body (some (codes "GZ")) (omega arith) gz_param
open_bundle-header BundleSpec.v2_bzip body h =
    open_v2 (codes "Compression=BZ") body (some (codes "BZ")) (omega arith) bz_param
open_bundle-header BundleSpec.v2_zstd body h =
    open_v2 (codes "Compression=ZS") body (some (codes "ZS")) (omega arith) zs_param
