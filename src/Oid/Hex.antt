-- ===== src/Oid/Hex.antt =====
-- What src/oid.rs relies on of the crate `hex`: lower case out, either case in, two digits a byte.
use git_cinnabar.Common.{
  ℕ, zero, suc, ◌+◌, ◌-◌, ◌*◌, ◌/◌, ◌%◌, ◌<◌, ◌≡◌, refl, ◌&&◌, [], ◌∷◌, Bytes, Option, none, some,
  ◌>>=◌, leb, ltb, if◌then◌else◌, arith,
}

abbrev pub hex_digit : ℕ → ℕ
hex_digit d = if ltb d 10 then b'0' + d else b'a' + d - 10

abbrev pub digit_value : ℕ → Option ℕ
digit_value c =
    if leb b'0' c && leb c b'9'
    then some (c - b'0')
    else if leb b'a' c && leb c b'f'
    then some (c - b'a' + 10)
    else if leb b'A' c && leb c b'F'
    then some (c - b'A' + 10)
    else none

-- One byte of `decode_to_slice`: its two digits, and then the rest.
abbrev pub decode_byte : ℕ → ℕ → Option Bytes → Option Bytes
decode_byte h l rest = do
  hi ← digit_value h
  lo ← digit_value l
  bytes ← rest
  some ((hi * 16 + lo) ∷ bytes)

pub record HexCrate : Type 0 where
  -- `decode_to_slice(text, out)` at the length of `out`; `none` is the error.
  pub decode_to_slice : Bytes → ℕ → Option Bytes
  pub encode : Bytes → Bytes
  pub decode_nil : decode_to_slice [] 0 ≡ some []
  pub decode_cons :
      (h l : ℕ) (text : Bytes) (n : ℕ)
      → decode_to_slice (h ∷ l ∷ text) (suc n) ≡ decode_byte h l (decode_to_slice text n)
  pub encode_nil : encode [] ≡ []
  pub encode_cons :
      (b : ℕ) (bytes : Bytes)
      → encode (b ∷ bytes) ≡ hex_digit (b / 16) ∷ hex_digit (b % 16) ∷ encode bytes

pub digit_value-hex_digit : (d : ℕ) → d < 16 → digit_value (hex_digit d) ≡ some d
digit_value-hex_digit d h = ground arith

pub hex_digit-injective : (d e : ℕ) → d < 16 → e < 16 → hex_digit d ≡ hex_digit e → d ≡ e
hex_digit-injective d e h k p = ground arith

-- The crate as a function.
unfoldable pub decode : Bytes → ℕ → Option Bytes
decode [] zero = some []
decode (h ∷ l ∷ text) (suc n) = decode_byte h l (decode text n)
decode _ _ = none

unfoldable pub encode : Bytes → Bytes
encode [] = []
encode (b ∷ bytes) = hex_digit (b / 16) ∷ hex_digit (b % 16) ∷ encode bytes

unfoldable pub hex_crate : HexCrate
unfolding decode encode
hex_crate = record {
  decode_to_slice = decode;
  encode = encode;
  decode_nil = refl;
  decode_cons = λ h l text n. refl;
  encode_nil = refl;
  encode_cons = λ b bytes. refl;
}
