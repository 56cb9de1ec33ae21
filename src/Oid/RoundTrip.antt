-- ===== src/Oid/RoundTrip.antt =====
-- Ids are read back from their text, whole and abbreviated.
use git_cinnabar.Common.{
  ℕ, zero, suc, ◌+◌, ◌-◌, ◌*◌, ◌/◌, ◌%◌, ◌≤◌, ◌≡◌, refl, [], ◌∷◌, ◌++◌, Bytes, IsBytes, some, ◌==◌,
  if◌then◌else◌, length, take, arith, ap, ◌∙◌, Bool-cases, All-append, length-append, ltb, ltb→lt,
  tests, inl, inr,
}
use git_cinnabar.Oid.Hex.{HexCrate, hex_digit, digit_value-hex_digit}
use git_cinnabar.Oid.{
  Oid, Abbrev, output_size, zeros, hex_bytes, display, from_str, display_abbrev, abbrev_from_str,
}

-- A SHA-1: twenty bytes.
pub record IsOid (o : Oid) : Type 0 where
  pub bytes : IsBytes o.raw
  pub size : length o.raw ≡ output_size

module _ (hex : HexCrate) where
  decode_to_slice-hex_bytes :
      (bytes : Bytes)
      → IsBytes bytes
      → hex.decode_to_slice (hex_bytes bytes) (length bytes) ≡ some bytes
  unfolding hex_bytes
  decode_to_slice-hex_bytes [] h = hex.decode_nil
  decode_to_slice-hex_bytes (b ∷ bs) (h, hs) =
      hex.decode_cons _ _ _ _
      ∙ rw
          (
            digit_value-hex_digit (b / 16) (omega arith),
            digit_value-hex_digit (b % 16) (omega arith),
            decode_to_slice-hex_bytes bs hs,
          )
          (ap (λ c. some (c ∷ bs)) (omega arith))

  -- The text of an id of 20 bytes is parsed as that id.
  pub from_str-display : (o : Oid) → IsOid o → from_str hex (display o) ≡ some o
  unfolding from_str display
  from_str-display o v = rw (← v.size) (rw (decode_to_slice-hex_bytes o.raw v.bytes))

  encode-hex_bytes : (bytes : Bytes) → hex.encode bytes ≡ hex_bytes bytes
  unfolding hex_bytes
  encode-hex_bytes [] = hex.encode_nil
  encode-hex_bytes (b ∷ bs) = hex.encode_cons b bs ∙ rw (encode-hex_bytes bs)

half-suc-suc : (len : ℕ) → (suc (suc len) + 1) / 2 ≡ suc ((len + 1) / 2)
half-suc-suc len = omega arith

-- The digits of a prefix are a prefix of the digits.
take-hex_bytes :
    (len : ℕ) (bytes : Bytes)
    → take len (hex_bytes (take ((len + 1) / 2) bytes)) ≡ take len (hex_bytes bytes)
unfolding hex_bytes
take-hex_bytes zero bytes = refl
take-hex_bytes (suc zero) [] = refl
take-hex_bytes (suc zero) (b ∷ bs) = refl
take-hex_bytes (suc (suc len)) [] = rw half-suc-suc
take-hex_bytes (suc (suc len)) (b ∷ bs) =
    rw half-suc-suc (ap (λ t. hex_digit (b / 16) ∷ hex_digit (b % 16) ∷ t) (take-hex_bytes len bs))

-- An abbreviated id prints as the first digits of the whole id.
pub display_abbrev-display :
    (hex : HexCrate) (a : Abbrev) → display_abbrev hex a ≡ take a.len (display a.oid)
unfolding display_abbrev display
display_abbrev-display hex a =
    rw (encode-hex_bytes hex (take ((a.len + 1) / 2) a.oid.raw)) (take-hex_bytes a.len a.oid.raw)

high-div : (b : ℕ) → b / 16 * 16 / 16 ≡ b / 16
high-div b = omega arith

high-mod : (b : ℕ) → b / 16 * 16 % 16 ≡ 0
high-mod b = omega arith

pub mod-suc-suc : (n : ℕ) → suc (suc n) % 2 ≡ n % 2
mod-suc-suc n = omega arith

-- The bytes that `len` digits give, the last one with a zero digit if `len` is odd.
cut : ℕ → Bytes → Bytes
cut zero bytes = []
cut (suc len) [] = []
cut (suc zero) (b ∷ bs) = (b / 16 * 16) ∷ []
cut (suc (suc len)) (b ∷ bs) = b ∷ cut len bs

cut-IsBytes : (len : ℕ) (bytes : Bytes) → IsBytes bytes → IsBytes (cut len bytes)
unfolding cut
cut-IsBytes zero bytes h = tt
cut-IsBytes (suc len) [] h = tt
cut-IsBytes (suc zero) (b ∷ bs) (h, hs) = (omega arith, tt)
cut-IsBytes (suc (suc len)) (b ∷ bs) (h, hs) = (h, cut-IsBytes len bs hs)

length-cut :
    (len : ℕ) (bytes : Bytes) → len ≤ 2 * length bytes → length (cut len bytes) ≡ (len + 1) / 2
unfolding cut
length-cut zero bytes h = refl
length-cut (suc len) [] h = absurd (omega arith)
length-cut (suc zero) (b ∷ bs) h = refl
length-cut (suc (suc len)) (b ∷ bs) h = omega (arith, length-cut len bs)

length-take_hex :
    (len : ℕ) (bytes : Bytes) → len ≤ 2 * length bytes → length (take len (hex_bytes bytes)) ≡ len
unfolding hex_bytes
length-take_hex zero bytes h = refl
length-take_hex (suc len) [] h = absurd (omega arith)
length-take_hex (suc zero) (b ∷ bs) h = refl
length-take_hex (suc (suc len)) (b ∷ bs) h = omega (arith, length-take_hex len bs)

-- The digits that are read: those of the cut bytes.
padded_digits :
    (len : ℕ) (bytes : Bytes)
    → IsBytes bytes
    → len ≤ 2 * length bytes
    → (if len % 2 == 0 then take len (hex_bytes bytes) else take len (hex_bytes bytes) ++ b'0' ∷ [])
      ≡ hex_bytes (cut len bytes)
unfolding hex_bytes cut
padded_digits zero bytes v h = refl
padded_digits (suc len) [] v h = absurd (omega arith)
padded_digits (suc zero) (b ∷ bs) (v, vs) h = rw (high-div b, high-mod b)
padded_digits (suc (suc len)) (b ∷ bs) (v, vs) h =
    let ih = padded_digits len bs vs (omega arith) in rw (mod-suc-suc len) (ground (arith, ih))

take-cut :
    (len : ℕ) (bytes rest : Bytes)
    → IsBytes bytes
    → len ≤ 2 * length bytes
    → take len (hex_bytes (cut len bytes ++ rest)) ≡ take len (hex_bytes bytes)
unfolding hex_bytes cut
take-cut zero bytes rest v h = refl
take-cut (suc len) [] rest v h = absurd (omega arith)
take-cut (suc zero) (b ∷ bs) rest (v, vs) h = rw (high-div b)
take-cut (suc (suc len)) (b ∷ bs) rest (v, vs) h = rw (take-cut len bs rest vs (omega arith))

length-hex_bytes : (bytes : Bytes) → length (hex_bytes bytes) / 2 ≡ length bytes
unfolding hex_bytes
length-hex_bytes [] = refl
length-hex_bytes (b ∷ bs) = omega (arith, length-hex_bytes bs)

zeros-IsBytes : (n : ℕ) → IsBytes (zeros n)
zeros-IsBytes zero = tt
zeros-IsBytes (suc n) = (omega arith, zeros-IsBytes n)

length-zeros : (n : ℕ) → length (zeros n) ≡ n
length-zeros zero = refl
length-zeros (suc n) = ap suc (length-zeros n)

abbrev pub filled : Bytes → Oid
filled bytes = record { raw = bytes ++ zeros (output_size - length bytes) }

filled-IsOid : (bytes : Bytes) → IsBytes bytes → length bytes ≤ output_size → IsOid (filled bytes)
filled-IsOid bytes v h = record {
  bytes = All-append _ bytes _ v (zeros-IsBytes (output_size - length bytes));
  size = omega (
    arith,
    length-append bytes (zeros (output_size - length bytes)),
    length-zeros (output_size - length bytes),
  );
}

module _ (hex : HexCrate) where
  read_digits :
      (text bytes : Bytes) (len : ℕ)
      → length text ≡ len
      → len ≤ 40
      → (if len % 2 == 0 then text else text ++ b'0' ∷ []) ≡ hex_bytes bytes
      → IsBytes bytes
      → abbrev_from_str hex text ≡ some (record { oid = filled bytes; len = len })
  unfolding abbrev_from_str
  read_digits text bytes len size h e v = elim (Bool-cases (ltb 40 len)) [
    | inl long ↦ absurd (omega (tests, ltb→lt _ _ long))
    | inr short ↦ rw (size, short, e, length-hex_bytes bytes, decode_to_slice-hex_bytes hex bytes v)
  ]

  -- A printed abbreviated id, of at most 40 digits, is read back as one of the same length that prints
  -- the same.
  pub abbrev_from_str-display_abbrev :
      (a : Abbrev)
      → IsOid a.oid
      → a.len ≤ 2 * output_size
      → (a' : Abbrev) × (abbrev_from_str hex (display_abbrev hex a) ≡ some a')
        × (a'.len ≡ a.len)
        × (display_abbrev hex a' ≡ display_abbrev hex a)
        × IsOid a'.oid
  unfolding display
  abbrev_from_str-display_abbrev a v h =
      let raw = a.oid.raw in
      let bytes = cut a.len raw in
      let fits : a.len ≤ 2 * length raw = omega (arith, v.size) in
      let size = length-cut a.len raw fits in
      let text-len = length-take_hex a.len raw fits in
      let digits = padded_digits a.len raw v.bytes fits in
      let good = cut-IsBytes a.len raw v.bytes in
      (
        record { oid = filled bytes; len = a.len },
        rw (display_abbrev-display hex a)
            (read_digits (take a.len (hex_bytes raw)) bytes a.len text-len h digits good),
        refl,
        rw
            (
              display_abbrev-display hex a,
              display_abbrev-display hex (record { oid = filled bytes; len = a.len }),
            )
            (take-cut a.len raw _ v.bytes fits),
        filled-IsOid bytes good (omega arith),
      )
