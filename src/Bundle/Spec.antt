-- ===== src/Bundle/Spec.antt =====
-- src/hg_bundle.rs: `BundleSpec`, and the headers by which `BundleWriter::new` and `BundleReader::new`
-- tell a bundle's version and compression. Compression itself is done by crates: what is behind the
-- header is a string of bytes here, and the compression that was found is returned with it.
pub mod RoundTrip
use git_cinnabar.Common.{
  ℕ, Bool, true, false, ◌||◌, List, [], ◌∷◌, ◌++◌, Bytes, codes, Option, none, some, ◌>>=◌,
  if◌then◌else◌, bytes_eq, ◌⊎◌, inl, inr, Outcome, ok, error, panic,
}
use git_cinnabar.Bundle.{read_exactly, read_bundle2_chunk}
use git_cinnabar.Util.{splitn_exact_2, split}

pub data BundleVersion : Type 0 where
  v1 : BundleVersion
  v2 : BundleVersion

pub data BundleSpec : Type 0 where
  changegroup_v1 : BundleSpec
  v1_none : BundleSpec
  v1_gzip : BundleSpec
  v1_bzip : BundleSpec
  v2_none : BundleSpec
  v2_gzip : BundleSpec
  v2_bzip : BundleSpec
  v2_zstd : BundleSpec

-- The messages of `from_str`.
pub data SpecError : Type 0 where
  unsupported_compression : Bytes → SpecError
  unsupported_version : Bytes → SpecError
  unsupported_spec : Bytes → SpecError

one_of : Bytes → List Bytes → Bool
one_of s [] = false
one_of s (t ∷ ts) = bytes_eq s t || one_of s ts

spec_error : Bytes → SpecError
unfolding one_of
spec_error s = elim (splitn_exact_2 b'-' s) [
  | none ↦ unsupported_spec s
  | some (compression, version) ↦
      if one_of compression (codes "none" ∷ codes "gzip" ∷ codes "bzip2" ∷ codes "zstd" ∷ [])
      then if one_of version (codes "v1" ∷ codes "v2" ∷ [])
        then unsupported_spec s
        else unsupported_version version
      else unsupported_compression compression
]

-- The arms of `from_str`, in order.
unfoldable pub lookup : List (Bytes × BundleSpec) → Bytes → Option BundleSpec
lookup [] s = none
lookup ((t, spec) ∷ specs) s = if bytes_eq s t then some spec else lookup specs s

abbrev pub specs : List (Bytes × BundleSpec)
specs =
    (codes "none-v1", v1_none)
    ∷ (codes "gzip-v1", v1_gzip)
    ∷ (codes "bzip2-v1", v1_bzip)
    ∷ (codes "none-v2", v2_none)
    ∷ (codes "gzip-v2", v2_gzip)
    ∷ (codes "bzip2-v2", v2_bzip)
    ∷ (codes "zstd-v2", v2_zstd)
    ∷ []

unfoldable pub from_str : Bytes → BundleSpec ⊎ SpecError
unfolding spec_error
from_str s = elim (lookup specs s) [ some spec ↦ inl spec | none ↦ inr (spec_error s) ]

unfoldable pub fmt : BundleSpec → Bytes
fmt changegroup_v1 = codes "raw"
fmt v1_none = codes "none-v1"
fmt v1_gzip = codes "gzip-v1"
fmt v1_bzip = codes "bzip2-v1"
fmt v2_none = codes "none-v2"
fmt v2_gzip = codes "gzip-v2"
fmt v2_bzip = codes "bzip2-v2"
fmt v2_zstd = codes "zstd-v2"

pub data Compression : Type 0 where
  plain : Compression
  zlib : Compression
  bzip : Compression
  zstd : Compression

-- The header that `BundleWriter::new` writes; the encoder of bzip2 writes the `BZ` itself.
unfoldable pub header : BundleSpec → Bytes
header changegroup_v1 = []
header v1_none = codes "HG10UN"
header v1_gzip = codes "HG10GZ"
header v1_bzip = codes "HG10"
header v2_none = codes "HG20" ++ (0 ∷ 0 ∷ 0 ∷ 0 ∷ [])
header v2_gzip = codes "HG20" ++ (0 ∷ 0 ∷ 0 ∷ 14 ∷ codes "Compression=GZ")
header v2_bzip = codes "HG20" ++ (0 ∷ 0 ∷ 0 ∷ 14 ∷ codes "Compression=BZ")
header v2_zstd = codes "HG20" ++ (0 ∷ 0 ∷ 0 ∷ 14 ∷ codes "Compression=ZS")

-- The version and the encoder that `BundleWriter::new` chooses.
unfoldable pub version_of : BundleSpec → BundleVersion
version_of changegroup_v1 = v1
version_of v1_none = v1
version_of v1_gzip = v1
version_of v1_bzip = v1
version_of v2_none = v2
version_of v2_gzip = v2
version_of v2_bzip = v2
version_of v2_zstd = v2

unfoldable pub encoder_of : BundleSpec → Compression
encoder_of changegroup_v1 = plain
encoder_of v1_none = plain
encoder_of v1_gzip = zlib
encoder_of v1_bzip = bzip
encoder_of v2_none = plain
encoder_of v2_gzip = zlib
encoder_of v2_bzip = bzip
encoder_of v2_zstd = zstd

-- `find_map` over the parameters: the first that sets a compression.
find_compression : List Bytes → Option Bytes
find_compression [] = none
find_compression (param ∷ params) =
    let rest = find_compression params in
    elim (splitn_exact_2 b'=' param) [
      | some (name, comp) ↦ if bytes_eq name (codes "Compression") then some comp else rest
      | none ↦ rest
    ]

decoder_v2 : Option Bytes → Option Compression
decoder_v2 none = some plain
decoder_v2 (some comp) =
    if bytes_eq comp (codes "GZ")
    then some zlib
    else if bytes_eq comp (codes "BZ")
    then some bzip
    else if bytes_eq comp (codes "ZS")
    then some zstd
    else none

new_bundlev2 : Bytes → Option (BundleVersion × Compression × Bytes)
unfolding find_compression decoder_v2
new_bundlev2 reader = read_bundle2_chunk reader >>= λ h.
    decoder_v2 (find_compression (split b' ' h.0)) >>= λ decoder. some (v2, decoder, h.1)

-- The two bytes are part of what the decoder of bzip2 reads.
new_bundlev1 : Bytes → Option (BundleVersion × Compression × Bytes)
new_bundlev1 reader = read_exactly 2 reader >>= λ c.
    if bytes_eq c.0 (codes "GZ")
    then some (v1, zlib, c.1)
    else if bytes_eq c.0 (codes "BZ")
    then some (v1, bzip, c.0 ++ c.1)
    else if bytes_eq c.0 (codes "UN")
    then some (v1, plain, c.1)
    else none

-- `BundleReader::new`; `none` is an error.
unfoldable pub open_bundle : Bytes → Option (BundleVersion × Compression × Bytes)
unfolding new_bundlev1 new_bundlev2
open_bundle reader = read_exactly 4 reader >>= λ h.
    if bytes_eq h.0 (codes "HG20")
    then new_bundlev2 h.1
    else if bytes_eq h.0 (codes "HG10")
    then new_bundlev1 h.1
    else some (v1, plain, h.0 ++ h.1)
