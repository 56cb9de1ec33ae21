-- ===== src/HgData/Offset.antt =====
-- UTC offsets: seconds west of UTC in Mercurial, `+hhmm` east of it in git.
use git_cinnabar.Common.{
  ℕ, zero, suc, ◌+◌, ◌-◌, ◌*◌, ◌/◌, ◌%◌, ◌^◌, ◌≤◌, ◌<◌, ◌≡◌, refl, ◌∷◌, ◌++◌, Bytes, Bool, true,
  false, ◌≢◌, some, arith, ap, ◌∙◌, if◌then◌else◌,
}
use git_cinnabar.HgData.{
  utcoffset_from_git_tz, is_positive, hhmm_text, abs, wrap_i32, add_alike, scale, div, rem,
  signed_against,
}
use git_cinnabar.Util.Number.RoundTrip.{
  IsI32, parse_digits-scan, scan-format_02, scan_two, format_02-ne-nil,
}
use git_cinnabar.Util.Number.{
  ℤ, pos, negsuc, neg, format_02, format_02_int, parse_digits, parse_i32,
}

wrap_pos : (n : ℕ) → n < 2 ^ 31 → wrap_i32 (pos n) ≡ pos n
unfolding wrap_i32
wrap_pos n h = ground arith

wrap_neg : (n : ℕ) → n ≤ 2 ^ 31 → wrap_i32 (neg n) ≡ neg n
unfolding wrap_i32
wrap_neg zero h = refl
wrap_neg (suc n) h = ground arith

-- Minutes from `hhmm`.
minutes :
    (t h m : ℕ)
    → t ≡ h * 100 + m
    → m < 60
    → (h * 60 + m) * 60 < 2 ^ 31
    → add_alike (scale (div (pos t) 100) 60) (rem (pos t) 100) ≡ pos (h * 60 + m)
unfolding add_alike scale div rem
minutes t h m e p q =
    let hours : t / 100 ≡ h = omega arith in
    let rest : t % 100 ≡ m = omega arith in
    rw (hours, rest, wrap_pos (h * 60) (omega arith)) (wrap_pos (h * 60 + m) (omega arith))

scale-neg : (u : ℕ) → u * 60 < 2 ^ 31 → scale (neg u) 60 ≡ neg (u * 60)
unfolding scale
scale-neg zero h = wrap_pos 0 (omega arith)
scale-neg (suc u) h = wrap_neg (suc u * 60) (omega arith)

scale_pos : (u : ℕ) → u * 60 < 2 ^ 31 → scale (pos u) 60 ≡ pos (u * 60)
unfolding scale
scale_pos u h = wrap_pos (u * 60) h

against_east : (t u : ℕ) → (t ≡ 0 → u ≡ 0) → signed_against (pos t) (pos u) ≡ neg u
unfolding signed_against
against_east zero u h = rw (h refl)
against_east (suc t) u h = refl

-- The number that `+hhmm` writes is that offset, to the west.
pub from_git_tz_east :
    (h m : ℕ)
    → m < 60
    → (h * 60 + m) * 60 < 2 ^ 31
    → utcoffset_from_git_tz (pos (h * 100 + m)) ≡ neg ((h * 60 + m) * 60)
unfolding utcoffset_from_git_tz abs
from_git_tz_east h m p q =
    rw
      (
        minutes (h * 100 + m) h m refl p q,
        against_east (h * 100 + m) (h * 60 + m) (λ e. omega arith),
      )
      (scale-neg (h * 60 + m) q)

pub from_git_tz_west :
    (t h m : ℕ)
    → suc t ≡ h * 100 + m
    → m < 60
    → (h * 60 + m) * 60 < 2 ^ 31
    → utcoffset_from_git_tz (negsuc t) ≡ pos ((h * 60 + m) * 60)
unfolding utcoffset_from_git_tz abs signed_against
from_git_tz_west t h m e p q =
    rw (wrap_pos (suc t) (omega arith), minutes (suc t) h m e p q) (scale_pos (h * 60 + m) q)

west_of :
    (t h m : ℕ)
    → t ≡ h * 100 + m
    → m < 60
    → (h * 60 + m) * 60 < 2 ^ 31
    → utcoffset_from_git_tz (neg t) ≡ pos ((h * 60 + m) * 60)
west_of zero h m e p q =
    let none_left : (h * 60 + m) * 60 ≡ 0 = omega arith in
    rw none_left (from_git_tz_east 0 0 (omega arith) (omega arith))
west_of (suc t) h m e p q = from_git_tz_west t h m e p q

-- The offset in `+hhmm` form, as `git_from_authorship` writes it.
abbrev pub tz_text : ℤ → Bytes
tz_text z = (if is_positive z then b'-' else b'+') ∷ hhmm_text z

-- Whole minutes that an i32 can hold.
abbrev pub IsMinutes : ℤ → Type 0
IsMinutes (pos n) = (n % 60 ≡ 0) × (n < 2 ^ 31)
IsMinutes (negsuc n) = (suc n % 60 ≡ 0) × (suc n < 2 ^ 31)

-- The number in the digits.
parse_hhmm :
    (bound h m : ℕ)
    → m < 100
    → h * 100 + m ≤ bound
    → parse_digits bound (format_02 h ++ format_02 m) ≡ some (h * 100 + m)
parse_hhmm bound h m p q =
    parse_digits-scan bound _ (format_02-ne-nil h (format_02 m))
    ∙ scan-format_02 bound h (format_02 m) (omega arith)
    ∙ scan_two bound h m p q

hhmm_text_pos : (n : ℕ) → hhmm_text (pos n) ≡ format_02 (n / 60 / 60) ++ format_02 (n / 60 % 60)
unfolding hhmm_text abs div rem format_02_int
hhmm_text_pos n = refl

hhmm_text_negsuc :
    (n : ℕ)
    → suc n < 2 ^ 31
    → hhmm_text (negsuc n) ≡ format_02 (suc n / 60 / 60) ++ format_02 (suc n / 60 % 60)
unfolding hhmm_text abs div rem format_02_int
hhmm_text_negsuc n h = rw (hhmm_text, wrap_pos (suc n) h)

-- An offset of whole minutes that an i32 holds is read back from git's form.
pub parse-tz_text :
    (z : ℤ)
    → IsMinutes z
    → (tz : ℤ) × (parse_i32 (tz_text z) ≡ some tz) × (utcoffset_from_git_tz tz ≡ z)
unfolding parse_i32 is_positive
parse-tz_text (pos zero) h = (
  pos 0,
  rw (hhmm_text_pos 0) (rw (parse_hhmm (2 ^ 31 - 1) 0 0 (omega arith) (omega arith))),
  from_git_tz_east 0 0 (omega arith) (omega arith),
)
parse-tz_text (pos (suc n)) (whole, fits) =
    let h = suc n / 60 / 60 in
    let m = suc n / 60 % 60 in
    let back : (h * 60 + m) * 60 ≡ suc n = omega arith in
    (
      neg (h * 100 + m),
      rw (hhmm_text_pos (suc n)) (rw (parse_hhmm (2 ^ 31) h m (omega arith) (omega arith))),
      west_of (h * 100 + m) h m refl (omega arith) (omega arith) ∙ ap pos back,
    )
parse-tz_text (negsuc n) (whole, fits) =
    let h = suc n / 60 / 60 in
    let m = suc n / 60 % 60 in
    let back : (h * 60 + m) * 60 ≡ suc n = omega arith in
    (
      pos (h * 100 + m),
      rw (hhmm_text_negsuc n fits) (rw (parse_hhmm (2 ^ 31 - 1) h m (omega arith) (omega arith))),
      from_git_tz_east h m (omega arith) (omega arith) ∙ ap neg back,
    )

-- The offset of some hours and minutes, in seconds to the west.
abbrev pub offset_of : Bool → ℕ → ℕ → ℤ
offset_of true hours minutes = pos ((hours * 60 + minutes) * 60)
offset_of false hours minutes = neg ((hours * 60 + minutes) * 60)

-- `-hhmm` west of UTC, `+hhmm` east of it.
abbrev pub sign_of : Bool → ℕ
sign_of true = b'-'
sign_of false = b'+'

tz_text-west :
    (u : ℕ) → u ≢ 0 → tz_text (pos u) ≡ b'-' ∷ (format_02 (u / 60 / 60) ++ format_02 (u / 60 % 60))
unfolding is_positive
tz_text-west zero h = absurd (h refl)
tz_text-west (suc n) h = rw (hhmm_text_pos (suc n)) refl

tz_text-east :
    (u : ℕ)
    → u < 2 ^ 31
    → tz_text (neg u) ≡ b'+' ∷ (format_02 (u / 60 / 60) ++ format_02 (u / 60 % 60))
unfolding is_positive
tz_text-east zero h = rw (hhmm_text_pos 0) refl
tz_text-east (suc n) h = rw (hhmm_text_negsuc n h) refl

pub tz_text-offset_of :
    (west : Bool) (hours minutes : ℕ)
    → minutes < 60
    → (hours * 60 + minutes) * 60 < 2 ^ 31
    → (west ≡ true → hours + minutes ≢ 0)
    → tz_text (offset_of west hours minutes) ≡ sign_of west ∷ (format_02 hours ++ format_02 minutes)
tz_text-offset_of true h m small fits nonzero =
    let u = (h * 60 + m) * 60 in
    let hours : u / 60 / 60 ≡ h = omega arith in
    let minutes : u / 60 % 60 ≡ m = omega arith in
    let some_time : u ≢ 0 = λ e. nonzero refl (omega arith) in
    tz_text-west u some_time ∙ rw (hours, minutes) refl
tz_text-offset_of false h m small fits nonzero =
    let u = (h * 60 + m) * 60 in
    let hours : u / 60 / 60 ≡ h = omega arith in
    let minutes : u / 60 % 60 ≡ m = omega arith in tz_text-east u fits ∙ rw (hours, minutes) refl

neg-IsMinutes : (u : ℕ) → u % 60 ≡ 0 → u < 2 ^ 31 → IsMinutes (neg u)
neg-IsMinutes zero h k = (h, k)
neg-IsMinutes (suc n) h k = (h, k)

neg-IsI32 : (u : ℕ) → u < 2 ^ 31 → IsI32 (neg u)
neg-IsI32 zero h = omega arith
neg-IsI32 (suc n) h = omega arith

pub offset_of-fits :
    (west : Bool) (hours minutes : ℕ)
    → (hours * 60 + minutes) * 60 < 2 ^ 31
    → IsMinutes (offset_of west hours minutes) × IsI32 (offset_of west hours minutes)
offset_of-fits true h m fits = ((omega arith, fits), omega arith)
offset_of-fits false h m fits =
    (neg-IsMinutes ((h * 60 + m) * 60) (omega arith) fits, neg-IsI32 ((h * 60 + m) * 60) fits)
