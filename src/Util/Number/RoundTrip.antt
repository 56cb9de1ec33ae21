-- ===== src/Util/Number/RoundTrip.antt =====
-- Printed numbers are read back.
use git_cinnabar.Common.{
  ℕ, zero, suc, ◌+◌, ◌-◌, ◌*◌, ◌/◌, ◌%◌, ◌^◌, ◌≤◌, ◌<◌, ◌≡◌, ◌≢◌, refl, [], ◌∷◌, ◌++◌, Bytes, some,
  arith, All, ◌∙◌, Bool-cases, inl, inr, append_assoc, ap, append-nil, sym, ltb,
}
use git_cinnabar.Util.Number.{
  ℤ, pos, negsuc, max_u64, digits, format_nat, format_int, format_02, scan, parse_digits, parse_u64,
  parse_i32,
}

scan-digits :
    (bound fuel n : ℕ) (out : Bytes)
    → n < fuel
    → n ≤ bound
    → scan bound 0 (digits fuel n out) ≡ scan bound n out
unfolding scan digits
scan-digits bound zero n out h k = absurd (omega arith)
scan-digits bound (suc fuel) n out h k =
    ground (arith, scan-digits bound fuel (n / 10) ((b'0' + n % 10) ∷ out))

abbrev pub IsDigit : ℕ → Type 0
IsDigit c = (b'0' ≤ c) × (c ≤ b'9')

digits-append : (fuel n : ℕ) (out : Bytes) → digits fuel n out ≡ digits fuel n [] ++ out
unfolding digits
digits-append zero n out = refl
digits-append (suc fuel) n out = ground (
  arith,
  digits-append fuel (n / 10) ((b'0' + n % 10) ∷ out),
  digits-append fuel (n / 10) ((b'0' + n % 10) ∷ []),
  append_assoc (digits fuel (n / 10) []) ((b'0' + n % 10) ∷ []) out,
)

digits-All : (fuel n : ℕ) (out : Bytes) → All IsDigit out → All IsDigit (digits fuel n out)
unfolding digits
digits-All zero n out h = h
digits-All (suc fuel) n out h = ground (arith, digits-All fuel (n / 10) ((b'0' + n % 10) ∷ out))

digits-ne-nil : (fuel n : ℕ) (out : Bytes) → out ≢ [] → digits fuel n out ≢ []
unfolding digits
digits-ne-nil zero n out h = h
digits-ne-nil (suc fuel) n out h =
    ground (arith, digits-ne-nil fuel (n / 10) ((b'0' + n % 10) ∷ out))

pub format_nat-All : (n : ℕ) → All IsDigit (format_nat n)
unfolding format_nat
format_nat-All n = digits-All (suc n) n [] tt

pub format_nat-ne-nil : (n : ℕ) → format_nat n ≢ []
unfolding format_nat
format_nat-ne-nil n = ground (arith, digits-ne-nil n (n / 10) ((b'0' + n % 10) ∷ []))

-- Reading goes on behind the digits.
pub scan-format_nat :
    (bound n : ℕ) (rest : Bytes)
    → n ≤ bound
    → scan bound 0 (format_nat n ++ rest) ≡ scan bound n rest
unfolding format_nat
scan-format_nat bound n rest h =
    ap (scan bound 0) (sym (digits-append (suc n) n rest))
    ∙ scan-digits bound (suc n) n rest (omega arith) h

pub parse_digits-scan : (bound : ℕ) (s : Bytes) → s ≢ [] → parse_digits bound s ≡ scan bound 0 s
unfolding parse_digits
parse_digits-scan bound [] h = absurd (h refl)
parse_digits-scan bound (c ∷ s) h = refl

pub parse_digits-format_nat : (bound n : ℕ) → n ≤ bound → parse_digits bound (format_nat n) ≡ some n
parse_digits-format_nat bound n h =
    parse_digits-scan bound (format_nat n) (format_nat-ne-nil n)
    ∙ ap (scan bound 0) (sym (append-nil (format_nat n)))
    ∙ scan-format_nat bound n [] h
    ∙ unfold scan in refl

-- A text of digits is read with no look at a sign.
pub parse_u64-digits : (s : Bytes) → All IsDigit s → parse_u64 s ≡ parse_digits max_u64 s
unfolding parse_u64
parse_u64-digits [] h = refl
parse_u64-digits (c ∷ s) (h, hs) = ground arith

pub parse_u64-format_nat : (n : ℕ) → n ≤ max_u64 → parse_u64 (format_nat n) ≡ some n
parse_u64-format_nat n h =
    parse_u64-digits (format_nat n) (format_nat-All n) ∙ parse_digits-format_nat max_u64 n h

-- The numbers of an i32.
abbrev pub IsI32 : ℤ → Type 0
IsI32 (pos n) = n < 2 ^ 31
IsI32 (negsuc n) = n < 2 ^ 31

parse_i32-digits :
    (s : Bytes) (n : ℕ)
    → All IsDigit s
    → parse_digits (2 ^ 31 - 1) s ≡ some n
    → parse_i32 s ≡ some (pos n)
unfolding parse_i32
parse_i32-digits [] n h e = cc
parse_i32-digits (c ∷ s) n (h, hs) e = ground arith

pub parse_i32-format_int : (z : ℤ) → IsI32 z → parse_i32 (format_int z) ≡ some z
unfolding format_int
parse_i32-format_int (pos n) h =
    parse_i32-digits (format_nat n) n (format_nat-All n)
      (parse_digits-format_nat (2 ^ 31 - 1) n (omega arith))
parse_i32-format_int (negsuc n) h =
    unfold parse_i32 in rw (parse_digits-format_nat (2 ^ 31) (suc n) h)

digits_one : (fuel n : ℕ) (out : Bytes) → n < 10 → digits (suc fuel) n out ≡ (b'0' + n) ∷ out
unfolding digits
digits_one fuel n out h = ground arith

digits_two :
    (n : ℕ) → 10 ≤ n → n < 100 → digits (suc n) n [] ≡ (b'0' + n / 10) ∷ (b'0' + n % 10) ∷ []
unfolding digits
digits_two zero h k = absurd (omega arith)
digits_two (suc n) h k = ground (arith, digits_one n (suc n / 10) ((b'0' + suc n % 10) ∷ []))

-- A number below a hundred has two digits.
pub format_02_lem : (n : ℕ) → n < 100 → format_02 n ≡ (b'0' + n / 10) ∷ (b'0' + n % 10) ∷ []
unfolding format_02 format_nat
format_02_lem n h = elim (Bool-cases (ltb n 10)) [
  | inl small ↦ rw small (ground arith)
  | inr large ↦ rw large (digits_two n (ground arith) h)
]

scan-zero : (bound : ℕ) (s : Bytes) → scan bound 0 (b'0' ∷ s) ≡ scan bound 0 s
unfolding scan
scan-zero bound s = ground arith

pub scan-format_02 :
    (bound n : ℕ) (rest : Bytes)
    → n ≤ bound
    → scan bound 0 (format_02 n ++ rest) ≡ scan bound n rest
unfolding format_02
scan-format_02 bound n rest h = elim (Bool-cases (ltb n 10)) [
  | inl small ↦ rw small (scan-zero bound (format_nat n ++ rest) ∙ scan-format_nat bound n rest h)
  | inr large ↦ rw large (scan-format_nat bound n rest h)
]

append-ne-nil : (a b : Bytes) → a ≢ [] → a ++ b ≢ []
append-ne-nil [] b h = absurd (h refl)
append-ne-nil (c ∷ a) b h = λ e. cc

-- Two digits behind a number.
pub scan_two :
    (bound h m : ℕ)
    → m < 100
    → h * 100 + m ≤ bound
    → scan bound h (format_02 m) ≡ some (h * 100 + m)
unfolding scan
scan_two bound h m p q = rw (format_02_lem m p) (ground arith)

pub format_02-ne-nil : (n : ℕ) (rest : Bytes) → format_02 n ++ rest ≢ []
unfolding format_02
format_02-ne-nil n rest = elim (Bool-cases (ltb n 10)) [
  | inl small ↦ rw small (λ e. cc)
  | inr large ↦ rw large (append-ne-nil (format_nat n) rest (format_nat-ne-nil n))
]

pub format_02-All : (n : ℕ) → All IsDigit (format_02 n)
unfolding format_02
format_02-All n = elim (Bool-cases (ltb n 10)) [
  | inl small ↦ rw small ((omega arith, omega arith), format_nat-All n)
  | inr large ↦ rw large (format_nat-All n)
]

-- The first byte is a digit, and not a zero.
abbrev pub StartsNonzero : Bytes → Type 0
StartsNonzero [] = ⊥
StartsNonzero (c ∷ s) = (b'1' ≤ c) × (c ≤ b'9')

digits-StartsNonzero :
    (fuel n : ℕ) (out : Bytes) → 0 < n → n < fuel → StartsNonzero (digits fuel n out)
unfolding digits
digits-StartsNonzero zero n out h k = absurd (omega arith)
digits-StartsNonzero (suc fuel) n out h k =
    ground (arith, digits-StartsNonzero fuel (n / 10) ((b'0' + n % 10) ∷ out))

pub format_nat-StartsNonzero : (n : ℕ) → 0 < n → StartsNonzero (format_nat n)
unfolding format_nat
format_nat-StartsNonzero n h = digits-StartsNonzero (suc n) n [] h (omega arith)
