-- ===== src/Util/Number.antt =====
-- The standard library's decimal numbers, which src/util.rs reads through `FromBytes`: `Display` and
-- `FromStr` of u64, usize and i32.
pub mod RoundTrip
use git_cinnabar.Common.{
  ℕ, zero, suc, ◌+◌, ◌-◌, ◌*◌, ◌/◌, ◌%◌, ◌^◌, ◌<◌, Bool, ◌||◌, [], ◌∷◌, ◌++◌, Bytes, Option, none,
  some, ◌>>=◌, ◌==◌, ltb, leb, if◌then◌else◌, true, false,
}

-- `negsuc n` is -(n + 1).
pub data ℤ : Type 0 where
  pos : ℕ → ℤ
  negsuc : ℕ → ℤ

abbrev pub neg : ℕ → ℤ
neg zero = pos 0
neg (suc n) = negsuc n

abbrev pub max_u64 : ℕ
max_u64 = 2 ^ 64 - 1

-- `to_string` of an unsigned number: the fuel is one more than the number, which has no more digits.
digits : ℕ → ℕ → Bytes → Bytes
digits zero n out = out
digits (suc fuel) n out =
    let rest = digits fuel (n / 10) ((b'0' + n % 10) ∷ out) in
    if n / 10 == 0 then (b'0' + n % 10) ∷ out else rest

unfoldable pub format_nat : ℕ → Bytes
unfolding digits
format_nat n = digits (suc n) n []

-- `to_string` of a signed number.
unfoldable pub format_int : ℤ → Bytes
unfolding format_nat
format_int (pos n) = format_nat n
format_int (negsuc n) = b'-' ∷ format_nat (suc n)

-- `{:02}` of a number that is not negative.
unfoldable pub format_02 : ℕ → Bytes
unfolding format_nat
format_02 n = if ltb n 10 then b'0' ∷ format_nat n else format_nat n

-- `{:02}` of a signed number, of which the sign counts.
unfoldable pub format_02_int : ℤ → Bytes
unfolding format_nat format_02
format_02_int (pos n) = format_02 n
format_02_int (negsuc n) = b'-' ∷ format_nat (suc n)

-- The digits behind the value read so far; `none` above the bound, or at another byte.
unfoldable pub scan : ℕ → ℕ → Bytes → Option ℕ
scan bound n [] = some n
scan bound n (c ∷ cs) =
    let m = n * 10 + (c - b'0') in
    if ltb c b'0' || ltb b'9' c then none else if ltb bound m then none else scan bound m cs

unfoldable pub parse_digits : ℕ → Bytes → Option ℕ
unfolding scan
parse_digits bound [] = none
parse_digits bound (c ∷ cs) = scan bound 0 (c ∷ cs)

-- `u64::from_str`, and `usize::from_str` where a `usize` has 64 bits: a plus sign is allowed.
unfoldable pub parse_u64 : Bytes → Option ℕ
unfolding parse_digits
parse_u64 [] = none
parse_u64 (c ∷ cs) = if c == b'+' then parse_digits max_u64 cs else parse_digits max_u64 (c ∷ cs)

-- `i32::from_str`.
unfoldable pub parse_i32 : Bytes → Option ℤ
unfolding parse_digits
parse_i32 [] = none
parse_i32 (c ∷ cs) =
    if c == b'-'
    then (do n ← parse_digits (2 ^ 31) cs; some (neg n))
    else if c == b'+'
    then (do n ← parse_digits (2 ^ 31 - 1) cs; some (pos n))
    else (do n ← parse_digits (2 ^ 31 - 1) (c ∷ cs); some (pos n))
