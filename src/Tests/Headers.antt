-- ===== src/Tests/Headers.antt =====
-- Headers of bundles and of parts, on concrete inputs; the header of a part is that of a test in
-- src/hg_bundle.rs.
use git_cinnabar.Common.{
  ◌≡◌, ◌≢◌, ◌↔◌, refl, Bool, true, false, [], ◌∷◌, ◌++◌, Bytes, codes, some, inl, map, arith,
}
use git_cinnabar.Bundle.Info.{
  write_lengths, write_params, Unicode, BundlePartInfo, lower, upper, is_upper, read_from,
  write_into,
}
use git_cinnabar.Bundle.Info.RoundTrip.{IsInfo, read_from-write_into}
use git_cinnabar.Bundle.Spec.{
  BundleSpec, from_str, fmt, header, open_bundle, version_of, encoder_of,
}
use git_cinnabar.Bundle.Spec.RoundTrip.{from_str_iff, open_bundle-header}
use git_cinnabar.Bundle.{write_u32}

starts : Bytes → Bool
starts [] = false
starts (c ∷ s) = is_upper c

-- What is not ASCII is left as it is.
unfoldable pub ascii : Unicode
unfolding starts
ascii = record {
  to_lowercase = λ s. map lower s;
  to_uppercase = λ s. map upper s;
  starts_uppercase = starts;
  is_utf8 = λ s. true;
  lower_ascii = λ s h. refl;
  upper_ascii = λ s h. refl;
  starts_nil = refl;
  starts_ascii = λ c s h. refl;
  utf8_ascii = λ s h. refl;
}

abbrev pub foobar : BundlePartInfo
foobar = record {
  mandatory = true;
  part_type = codes "foobar";
  part_id = 0x12345678;
  params = (codes "name", codes "value") ∷ (codes "name2", codes "value2") ∷ [];
}

pub foobar-IsInfo : IsInfo foobar
foobar-IsInfo = record {
  part_type = ground arith;
  mandatory = (omega arith, omega arith);
  part_id = omega arith;
  params = (((λ h. cc), tt), (tt, tt));
  ascii = ground arith;
}

abbrev pub foobar_text : Bytes
foobar_text =
    6
    ∷ (codes "FOOBAR"
        ++ (0x12 ∷ 0x34 ∷ 0x56 ∷ 0x78 ∷ 2 ∷ 0 ∷ 4 ∷ 5 ∷ 5 ∷ 6 ∷ codes "namevaluename2value2"))

pub foobar_written : write_into ascii foobar ≡ some foobar_text
unfolding write_into write_lengths write_params write_u32 ascii
foobar_written = refl

read_from-write_into_example :
    read_from ascii (foobar_text ++ codes "rest") ≡ some (foobar, codes "rest")
read_from-write_into_example =
    read_from-write_into ascii foobar foobar_text (codes "rest") foobar-IsInfo foobar_written

from_str_iff_example : (from_str (codes "zstd-v2") ≡ inl BundleSpec.v2_zstd) ↔ (
    (fmt BundleSpec.v2_zstd ≡ codes "zstd-v2") × (BundleSpec.v2_zstd ≢ BundleSpec.changegroup_v1))
from_str_iff_example = from_str_iff (codes "zstd-v2") BundleSpec.v2_zstd

open_bundle-header_example :
    open_bundle (header BundleSpec.v1_bzip ++ codes "BZh9")
    ≡ some (version_of BundleSpec.v1_bzip, encoder_of BundleSpec.v1_bzip, codes "BZh9")
open_bundle-header_example = open_bundle-header BundleSpec.v1_bzip (codes "BZh9") (codes "h9", refl)
