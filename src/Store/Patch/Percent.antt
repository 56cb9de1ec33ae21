-- ===== src/Store/Patch/Percent.antt =====
-- The crate `percent_encoding` as functions, at the set `NON_ALPHANUMERIC`.
use git_cinnabar.Common.{
  ℕ, ◌+◌, ◌*◌, ◌/◌, ◌%◌, ◌<◌, ◌≡◌, ◌≢◌, refl, ap, inl, inr, Bool, true, false, ◌&&◌, ◌||◌, [], ◌∷◌,
  Bytes, IsBytes, Lacks, Option, none, some, ◌==◌, leb, if◌then◌else◌, Bool-cases, arith,
}
use git_cinnabar.Oid.Hex.{hex_digit, digit_value, digit_value-hex_digit}
use git_cinnabar.Store.Patch.{PercentCrate}

abbrev is_alphanumeric : ℕ → Bool
is_alphanumeric c =
    (leb b'0' c && leb c b'9') || (leb b'A' c && leb c b'Z') || (leb b'a' c && leb c b'z')

-- The digits in lower case, where the crate writes upper case, which is read the same.
unfoldable pub percent_encode : Bytes → Bytes
percent_encode [] = []
percent_encode (c ∷ s) =
    let rest = percent_encode s in
    if is_alphanumeric c
    then c ∷ rest
    else b'%' ∷ (hex_digit (c / 16) ∷ (hex_digit (c % 16) ∷ rest))

-- What stands before the next byte: nothing to wait for, a percent sign, or that and a digit.
pub data Pending : Type 0 where
  nothing : Pending
  percent : Pending
  digit : ℕ → Pending

abbrev or_zero : Option ℕ → ℕ
or_zero none = 0
or_zero (some n) = n

pub percent_decode_from : Pending → Bytes → Bytes
percent_decode_from Pending.nothing [] = []
percent_decode_from Pending.percent [] = b'%' ∷ []
percent_decode_from (Pending.digit d) [] = b'%' ∷ (d ∷ [])
percent_decode_from Pending.nothing (c ∷ s) =
    let escaped = percent_decode_from Pending.percent s in
    let plain = percent_decode_from Pending.nothing s in if c == b'%' then escaped else c ∷ plain
percent_decode_from Pending.percent (c ∷ s) = percent_decode_from (Pending.digit c) s
percent_decode_from (Pending.digit d) (c ∷ s) =
    (or_zero (digit_value d) * 16 + or_zero (digit_value c)) ∷ percent_decode_from Pending.nothing s

alphanumeric_plain : (c : ℕ) → is_alphanumeric c ≡ true → (c ≢ 0) × ((c == b'%') ≡ false)
alphanumeric_plain c h = ground arith

hex_digit_nonzero : (d : ℕ) → hex_digit d ≢ 0
hex_digit_nonzero d = ground arith

or_zero-hex_digit : (d : ℕ) → d < 16 → or_zero (digit_value (hex_digit d)) ≡ d
or_zero-hex_digit d h = ap or_zero (digit_value-hex_digit d h)

module _ (c : ℕ) (s : Bytes) where
  encode_plain : is_alphanumeric c ≡ true → percent_encode (c ∷ s) ≡ c ∷ percent_encode s
  unfolding percent_encode
  encode_plain e = rw (percent_encode, e)

  encode_escaped :
      is_alphanumeric c ≡ false
      → percent_encode (c ∷ s)
        ≡ b'%' ∷ (hex_digit (c / 16) ∷ (hex_digit (c % 16) ∷ percent_encode s))
  unfolding percent_encode
  encode_escaped e = rw (percent_encode, e)

  decode_plain :
      (c == b'%') ≡ false
      → percent_decode_from Pending.nothing (c ∷ s) ≡ c ∷ percent_decode_from Pending.nothing s
  unfolding percent_decode_from
  decode_plain e = rw (percent_decode_from, e)

decode_escaped :
    (h l : ℕ) (s : Bytes)
    → percent_decode_from Pending.nothing (b'%' ∷ (h ∷ (l ∷ s)))
      ≡ (or_zero (digit_value h) * 16 + or_zero (digit_value l))
        ∷ percent_decode_from Pending.nothing s
unfolding percent_decode_from
decode_escaped h l s = refl

pub encode_Lacks : (b : Bytes) → IsBytes b → Lacks 0 (percent_encode b)
encode_Lacks [] h = unfold percent_encode in tt
encode_Lacks (c ∷ s) (h, hs) = elim (Bool-cases (is_alphanumeric c)) [
  | inl e ↦ rw (encode_plain c s e) ((alphanumeric_plain c e).0, encode_Lacks s hs)
  | inr e ↦
      rw (encode_escaped c s e)
        (omega arith, (hex_digit_nonzero (c / 16), (hex_digit_nonzero (c % 16), encode_Lacks s hs)))
]

pub decode_encode :
    (b : Bytes) → IsBytes b → percent_decode_from Pending.nothing (percent_encode b) ≡ b
decode_encode [] h = unfold percent_encode percent_decode_from in refl
decode_encode (c ∷ s) (h, hs) = elim (Bool-cases (is_alphanumeric c)) [
  | inl e ↦ rw (
    encode_plain c s e,
    decode_plain c (percent_encode s) (alphanumeric_plain c e).1,
    decode_encode s hs,
  )
  | inr e ↦
      let back : c / 16 * 16 + c % 16 ≡ c = omega arith in
      rw (
        encode_escaped c s e,
        decode_escaped (hex_digit (c / 16)) (hex_digit (c % 16)) (percent_encode s),
        or_zero-hex_digit (c / 16) (omega arith),
        or_zero-hex_digit (c % 16) (omega arith),
        back,
        decode_encode s hs,
      )
]

unfoldable pub percent_crate : PercentCrate
percent_crate = record {
  percent_encode = percent_encode;
  percent_decode = percent_decode_from Pending.nothing;
  encode_Lacks = encode_Lacks;
  decode_encode = decode_encode;
}
