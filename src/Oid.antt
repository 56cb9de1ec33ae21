-- ===== src/Oid.antt =====
-- src/oid.rs: object ids, their hexadecimal text, and abbreviated ids. The crate `hex` is a
-- parameter. Every id of the program is a SHA-1.
pub mod Hex
pub mod RoundTrip
pub mod Equality
use Prim.Native.Nat.{bit_and}
use git_cinnabar.Common.{
  ℕ, zero, suc, ◌+◌, ◌-◌, ◌*◌, ◌/◌, ◌%◌, Bool, true, false, ◌&&◌, ◌||◌, List, [], ◌∷◌, ◌++◌, Bytes,
  codes, Option, none, some, ◌>>=◌, ◌==◌, ltb, leb, if◌then◌else◌, length, take, drop, get_elem?,
  bytes_eq,
}
use git_cinnabar.Oid.Hex.{HexCrate, hex_digit}

-- `output_size` of SHA-1.
abbrev pub output_size : ℕ
output_size = 20

pub record Oid : Type 0 where
  pub raw : Bytes

abbrev pub zeros : ℕ → Bytes
zeros zero = []
zeros (suc n) = 0 ∷ zeros n

abbrev pub null_oid : Oid
null_oid = record { raw = zeros output_size }

unfoldable pub all_zero : Bytes → Bool
all_zero [] = true
all_zero (b ∷ bs) = b == 0 && all_zero bs

unfoldable pub is_null : Oid → Bool
unfolding all_zero
is_null o = all_zero o.raw

unfoldable pub from_raw_bytes : Bytes → Option Oid
from_raw_bytes b = if length b == output_size then some (record { raw = b }) else none

unfoldable pub hex_bytes : Bytes → Bytes
hex_bytes [] = []
hex_bytes (b ∷ bs) = hex_digit (b / 16) ∷ hex_digit (b % 16) ∷ hex_bytes bs

-- `Display`: every byte as `{:02x}`.
unfoldable pub display : Oid → Bytes
unfolding hex_bytes
display o = hex_bytes o.raw

pub record Abbrev : Type 0 where
  pub oid : Oid
  pub len : ℕ

-- `ObjectId::abbrev`; `none` is the failed assertion.
unfoldable pub abbrev_oid : Oid → ℕ → Option Abbrev
abbrev_oid oid len =
    if leb len (2 * output_size) then some (record { oid = oid; len = len }) else none

-- `self_oid[len / 2] & 0xf0 == other_oid[len / 2] & 0xf0`; an index out of bounds is false here,
-- and a panic there, for a length that no `Abbrev` has.
same_high_nibble : Option ℕ → Option ℕ → Bool
same_high_nibble (some a) (some b) = bit_and a 0xf0 == bit_and b 0xf0
same_high_nibble _ _ = false

-- `PartialEq for Abbrev`.
unfoldable pub abbrev_eq : Abbrev → Abbrev → Bool
unfolding same_high_nibble
abbrev_eq a b =
    a.len == b.len
    && (bytes_eq (take (a.len / 2) a.oid.raw) (take (a.len / 2) b.oid.raw)
        && (a.len % 2 == 0
            || same_high_nibble (get_elem? a.oid.raw (a.len / 2))
                (get_elem? b.oid.raw (a.len / 2))))

module _ (hex : HexCrate) where
  -- `FromStr`.
  unfoldable pub from_str : Bytes → Option Oid
  from_str s = do raw ← hex.decode_to_slice s output_size; some (record { raw = raw })

  -- `Display for Abbrev`.
  unfoldable pub display_abbrev : Abbrev → Bytes
  display_abbrev a = take a.len (hex.encode (take ((a.len + 1) / 2) a.oid.raw))

  -- `FromStr for Abbrev`: an odd digit at the end is read with a zero behind it, and the bytes that
  -- are not given stay zero.
  unfoldable pub abbrev_from_str : Bytes → Option Abbrev
  abbrev_from_str s = if ltb 40 (length s) then none else do
    let digits = if length s % 2 == 0 then s else s ++ b'0' ∷ []
    let n = length digits / 2
    raw ← hex.decode_to_slice digits n
    some (record { oid = record { raw = raw ++ zeros (output_size - n) }; len = length s })
