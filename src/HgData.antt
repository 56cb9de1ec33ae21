-- ===== src/HgData.antt =====
-- src/hg_data.rs: the authors and dates of git and Mercurial, converted through `Authorship`.
pub mod Who
pub mod Offset
pub mod GitToHg
pub mod HgRoundTrip
pub mod Hash
use git_cinnabar.Common.{
  ℕ, zero, suc, ◌+◌, ◌-◌, ◌*◌, ◌/◌, ◌%◌, ◌^◌, Bool, true, false, not, ◌&&◌, ◌||◌, List, [], ◌∷◌,
  ◌++◌, Bytes, codes, Option, none, some, ◌>>=◌, ◌==◌, ltb, leb, if◌then◌else◌, is_empty,
}
use git_cinnabar.HgData.Who.{WhoRegex}
use git_cinnabar.Util.Number.{
  ℤ, pos, negsuc, neg, format_nat, format_int, format_02_int, parse_u64, parse_i32,
}
use git_cinnabar.Util.{rsplitn_exact_3}

pub record HgAuthorship : Type 0 where
  pub author : Bytes
  pub timestamp : Bytes
  pub utcoffset : Bytes

pub record Authorship : Type 0 where
  pub name : Bytes
  pub email : Bytes
  -- A u64.
  pub timestamp : ℕ
  -- An i32.
  pub utcoffset : ℤ

-- The i32 with these low 32 bits.
from_bits : ℕ → ℤ
from_bits bits = if ltb bits (2 ^ 31) then pos bits else neg (2 ^ 32 - bits)

-- The i32 that an integer wraps around to.
wrap_i32 : ℤ → ℤ
unfolding from_bits
wrap_i32 (pos n) = from_bits (n % 2 ^ 32)
wrap_i32 (negsuc n) = from_bits ((2 ^ 32 - suc n % 2 ^ 32) % 2 ^ 32)

-- `abs`, `/` and `%` of an i32, which round towards zero.
abs : ℤ → ℤ
unfolding wrap_i32
abs (pos n) = pos n
abs (negsuc n) = wrap_i32 (pos (suc n))

div : ℤ → ℕ → ℤ
div (pos n) k = pos (n / k)
div (negsuc n) k = neg (suc n / k)

rem : ℤ → ℕ → ℤ
rem (pos n) k = pos (n % k)
rem (negsuc n) k = neg (suc n % k)

-- Multiplication by a constant, and the sum of two numbers of the same sign.
scale : ℤ → ℕ → ℤ
unfolding wrap_i32
scale (pos n) k = wrap_i32 (pos (n * k))
scale (negsuc n) k = wrap_i32 (neg (suc n * k))

add_alike : ℤ → ℤ → ℤ
unfolding wrap_i32
add_alike (pos a) (pos b) = wrap_i32 (pos (a + b))
add_alike (negsuc a) (negsuc b) = wrap_i32 (neg (suc a + suc b))
add_alike a (pos zero) = a
add_alike (pos zero) b = b
add_alike a b = a

-- `sign * x` for the sign of `-tz`.
signed_against : ℤ → ℤ → ℤ
unfolding wrap_i32
signed_against (pos zero) x = pos 0
signed_against (negsuc n) x = x
signed_against (pos (suc m)) (pos n) = neg n
signed_against (pos (suc m)) (negsuc n) = wrap_i32 (pos (suc n))

unfoldable pub utcoffset_from_git_tz : ℤ → ℤ
unfolding abs div rem scale add_alike signed_against
utcoffset_from_git_tz tz =
    let magnitude = abs tz in
    let utcoffset = add_alike (scale (div magnitude 100) 60) (rem magnitude 100) in
    scale (signed_against tz utcoffset) 60

unfoldable pub is_positive : ℤ → Bool
is_positive (pos zero) = false
is_positive (pos (suc n)) = true
is_positive (negsuc n) = false

-- `cleanup`: the angle brackets are taken out.
unfoldable pub cleanup : Bytes → Bytes
cleanup [] = []
cleanup (c ∷ cs) = let rest = cleanup cs in if c == b'<' || c == b'>' then rest else c ∷ rest

unfoldable pub contains : ℕ → Bytes → Bool
contains b [] = false
contains b (c ∷ cs) = c == b || contains b cs

-- The hours and the minutes of an offset; `abs()` of the least i32 is that number itself.
unfoldable pub hhmm_text : ℤ → Bytes
unfolding abs div rem format_02_int
hhmm_text seconds =
    let utcoffset = div (abs seconds) 60 in
    format_02_int (div utcoffset 60) ++ format_02_int (rem utcoffset 60)

-- `From<Authorship> for GitAuthorship`.
unfoldable pub git_from_authorship : Authorship → Bytes
unfolding is_positive hhmm_text
git_from_authorship a =
    let sign = if is_positive a.utcoffset then b'-' else b'+' in
    a.name
    ++ (codes " <"
        ++ (a.email
            ++ (codes "> " ++ (format_nat a.timestamp ++ (b' ' ∷ sign ∷ hhmm_text a.utcoffset)))))

-- `From<Authorship> for HgAuthorship`.
unfoldable pub hg_author : Bytes → Bytes → Bytes
hg_author [] email = b'<' ∷ (email ++ b'>' ∷ [])
hg_author (n ∷ name) [] = n ∷ name
hg_author (n ∷ name) (e ∷ email) = n ∷ (name ++ (codes " <" ++ (e ∷ (email ++ b'>' ∷ []))))

unfoldable pub hg_from_authorship : Authorship → HgAuthorship
unfolding hg_author
hg_from_authorship a = record {
  author = hg_author a.name a.email;
  timestamp = format_nat a.timestamp;
  utcoffset = format_int a.utcoffset;
}

-- `From<Authorship> for HgCommitter`.
unfoldable pub committer_from_authorship : Authorship → Bytes
unfolding hg_from_authorship
committer_from_authorship a =
    let h = hg_from_authorship a in h.author ++ (b' ' ∷ (h.timestamp ++ (b' ' ∷ h.utcoffset)))

-- Whether the offset of a committer is in git's form: by its first bytes and its value.
quarter_hour : ℤ → Bool
quarter_hour (pos n) = not (n % 900 == 0) && n % 100 % 15 == 0
quarter_hour (negsuc n) = ltb (suc n) 1800 && (not (suc n % 900 == 0) && suc n % 100 % 15 == 0)

unfoldable pub is_git_offset : Bytes → ℤ → Bool
unfolding quarter_hour
is_git_offset (c ∷ d ∷ rest) num =
    if c == b'+'
    then true
    else if c == b'-' && d == b'0'
    then true
    else if c == b'-' && d == b'1'
    then quarter_hour num
    else false
is_git_offset (c ∷ []) num = c == b'+'
is_git_offset [] num = false

-- `WHO_RE`, the regular expression `^(?-u)(.*?) ?(?:<(.*?)>)`, is a parameter. `none` is the panic
-- of an `unwrap`.
module _ (who : WhoRegex) where
  unfoldable pub authorship_from_git : Bytes → Option Authorship
  authorship_from_git a = do
    (w, timestamp, tz) ← rsplitn_exact_3 b' ' a
    (name, email) ← who.captures w
    tz_num ← parse_i32 tz
    timestamp_num ← parse_u64 timestamp
    some (record {
      name = name;
      email = email;
      timestamp = timestamp_num;
      utcoffset = utcoffset_from_git_tz tz_num;
    })

  name_and_mail : Bytes → Bytes × Bytes
  unfolding contains
  name_and_mail author = elim (who.captures author) [
    | some (name, mail) ↦ (name, mail)
    | none ↦ if contains b'@' author then ([], author) else (author, [])
  ]

  unfoldable pub normalize_hg_author : Bytes → Bytes × Bytes
  unfolding name_and_mail cleanup
  normalize_hg_author author =
      let parts = name_and_mail author in (cleanup parts.0, cleanup parts.1)

  unfoldable pub authorship_from_hg : HgAuthorship → Option Authorship
  authorship_from_hg a = do
    let parts = normalize_hg_author a.author
    timestamp ← parse_u64 a.timestamp
    utcoffset ← parse_i32 a.utcoffset
    some (record { name = parts.0; email = parts.1; timestamp = timestamp; utcoffset = utcoffset })

  unfoldable pub authorship_from_committer : Bytes → Option Authorship
  unfolding is_git_offset
  authorship_from_committer a = do
    (author, timestamp, utcoffset) ← rsplitn_exact_3 b' ' a
    let parts = normalize_hg_author author
    timestamp_num ← parse_u64 timestamp
    utcoffset_num ← parse_i32 utcoffset
    some (record {
      name = parts.0;
      email = parts.1;
      timestamp = timestamp_num;
      utcoffset =
          if is_git_offset utcoffset utcoffset_num
          then utcoffset_from_git_tz utcoffset_num
          else utcoffset_num;
    })

  unfoldable pub hg_from_git : Bytes → Option HgAuthorship
  hg_from_git a = do x ← authorship_from_git a; some (hg_from_authorship x)

  unfoldable pub committer_from_git : Bytes → Option Bytes
  committer_from_git a = do x ← authorship_from_git a; some (committer_from_authorship x)

  unfoldable pub git_from_hg : HgAuthorship → Option Bytes
  git_from_hg a = do x ← authorship_from_hg a; some (git_from_authorship x)

  unfoldable pub git_from_committer : Bytes → Option Bytes
  git_from_committer a = do x ← authorship_from_committer a; some (git_from_authorship x)
