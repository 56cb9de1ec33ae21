-- ===== src/Tests/Ids.antt =====
-- Ids and their texts, on concrete inputs.
use git_cinnabar.Common.{◌≡◌, refl, [], ◌∷◌, some, arith}
use git_cinnabar.Oid.{Oid, Abbrev, display_abbrev, abbrev_from_str}
use git_cinnabar.Oid.Hex.{hex_crate}
use git_cinnabar.Oid.RoundTrip.{IsOid, abbrev_from_str-display_abbrev}

abbrev pub some_oid : Oid
some_oid = record {
  raw =
      0xab ∷ 0xcd ∷ 0 ∷ 1 ∷ 2 ∷ 3 ∷ 4 ∷ 5 ∷ 6 ∷ 7 ∷ 8 ∷ 9 ∷ 10 ∷ 11 ∷ 12 ∷ 13 ∷ 14 ∷ 15 ∷ 254 ∷ 255
      ∷ [];
}

pub some_IsOid : IsOid some_oid
some_IsOid = record { bytes = ground arith; size = refl }

-- Three digits.
abbrev short : Abbrev
short = record { oid = some_oid; len = 3 }

abbrev_from_str_example :
    (a' : Abbrev) × (abbrev_from_str hex_crate (display_abbrev hex_crate short) ≡ some a')
    × (a'.len ≡ 3)
    × (display_abbrev hex_crate a' ≡ display_abbrev hex_crate short)
    × IsOid a'.oid
abbrev_from_str_example = abbrev_from_str-display_abbrev hex_crate short some_IsOid (omega arith)
