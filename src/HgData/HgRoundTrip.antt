-- ===== src/HgData/HgRoundTrip.antt =====
-- Authorship information survives being written in Mercurial's forms and read back.
use git_cinnabar.Common.{
  ℕ, suc, ◌%◌, ◌+◌, ◌*◌, ◌^◌, ◌<◌, ◌++◌, ◌∙◌, ap, Bool, true, codes, ◌≤◌, ◌≡◌, ◌≢◌, refl, false, [],
  ◌∷◌, Bytes, All, Lacks, some, arith, ◌⊎◌,
}
use git_cinnabar.HgData.GitToHg.{
  IsGitWho, git_text, who_text, digit_Lacks_space, authorship_from_git-git_from_authorship,
}
use git_cinnabar.HgData.Offset.{offset_of, offset_of-fits, sign_of, tz_text-offset_of}
use git_cinnabar.HgData.Who.{WhoRegex, IsName, IsMail}
use git_cinnabar.HgData.{
  Authorship, HgAuthorship, hg_author, hg_from_authorship, authorship_from_hg,
  committer_from_authorship, authorship_from_committer, normalize_hg_author, name_and_mail, cleanup,
  contains, is_git_offset, quarter_hour, git_from_authorship, git_from_hg, hg_from_git,
}
use git_cinnabar.Util.Number.RoundTrip.{
  IsDigit, IsI32, StartsNonzero, format_nat-StartsNonzero, format_nat-ne-nil, format_nat-All,
  parse_u64-format_nat, parse_i32-format_int,
}
use git_cinnabar.Util.Number.{ℤ, pos, negsuc, max_u64, format_nat, format_int, format_02}
use git_cinnabar.Util.Splits.{rsplitn_exact_3-append}

-- No angle bracket or newline.
abbrev pub IsPlain : Bytes → Type 0
IsPlain = All (λ c. (c ≢ b'<') × (c ≢ b'>') × (c ≢ b'\n'))

-- The text of a git author, part by part.
abbrev pub git_author : Bytes → Bytes → ℕ → Bool → ℕ → ℕ → Bytes
git_author name email timestamp west hours minutes =
    (name ++ (codes " <" ++ (email ++ b'>' ∷ [])))
    ++ b' '
      ∷ (format_nat timestamp ++ b' ' ∷ (sign_of west ∷ (format_02 hours ++ format_02 minutes)))

-- What Mercurial's form can hold: a name with no address has no at sign, since it would be read as
-- an address.
pub record IsHgWho (a : Authorship) : Type 0 where
  pub name : IsPlain a.name
  pub email : IsPlain a.email
  pub no_at : a.email ≡ [] → Lacks b'@' a.name
  pub timestamp : a.timestamp ≤ max_u64
  pub utcoffset : IsI32 a.utcoffset

IsPlain-IsName : (s : Bytes) → IsPlain s → IsName s
IsPlain-IsName [] h = tt
IsPlain-IsName (c ∷ s) (h, hs) = ((h.0, h.2), IsPlain-IsName s hs)

IsPlain-IsMail : (s : Bytes) → IsPlain s → IsMail s
IsPlain-IsMail [] h = tt
IsPlain-IsMail (c ∷ s) (h, hs) = ((h.1, h.2), IsPlain-IsMail s hs)

IsPlain-Lacks : (s : Bytes) → IsPlain s → Lacks b'<' s
IsPlain-Lacks [] h = tt
IsPlain-Lacks (c ∷ s) (h, hs) = (h.0, IsPlain-Lacks s hs)

cleanup_plain : (s : Bytes) → IsPlain s → cleanup s ≡ s
unfolding cleanup
cleanup_plain [] h = refl
cleanup_plain (c ∷ s) (h, hs) = ground (arith, cleanup_plain s hs)

contains-Lacks : (b : ℕ) (s : Bytes) → Lacks b s → contains b s ≡ false
unfolding contains
contains-Lacks b [] h = refl
contains-Lacks b (c ∷ s) (h, hs) = ground (arith, contains-Lacks b s hs)

-- An offset that is not taken for one in git's form: one that is not west of UTC, one of whole
-- quarters of an hour, or one of half an hour or more to the east.
abbrev pub IsClearOffset : ℤ → Type 0
IsClearOffset (pos n) = Unit
IsClearOffset (negsuc n) = (suc n % 900 ≡ 0) ⊎ (1800 ≤ suc n)

is_git_offset_east :
    (n : ℕ) (s : Bytes)
    → (suc n % 900 ≡ 0) ⊎ (1800 ≤ suc n)
    → StartsNonzero s
    → is_git_offset (b'-' ∷ s) (negsuc n) ≡ false
unfolding is_git_offset quarter_hour
is_git_offset_east n [] h k = elim k [ ]
is_git_offset_east n (c ∷ s) h k = ground arith

is_git_offset_west : (z : ℤ) (s : Bytes) → All IsDigit s → s ≢ [] → is_git_offset s z ≡ false
unfolding is_git_offset
is_git_offset_west z [] h ne = absurd (ne refl)
is_git_offset_west z (c ∷ []) h ne = ground arith
is_git_offset_west z (c ∷ (d ∷ s)) h ne = ground arith

is_git_offset-format_int : (z : ℤ) → IsClearOffset z → is_git_offset (format_int z) z ≡ false
unfolding format_int
is_git_offset-format_int (pos n) h =
    is_git_offset_west (pos n) (format_nat n) (format_nat-All n) (format_nat-ne-nil n)
is_git_offset-format_int (negsuc n) h =
    is_git_offset_east n (format_nat (suc n)) h (format_nat-StartsNonzero (suc n) (omega arith))

negative_Lacks : (s : Bytes) → All IsDigit s → Lacks b' ' (b'-' ∷ s)
negative_Lacks s h = (λ e. omega arith, digit_Lacks_space s h)

format_int-Lacks : (z : ℤ) → Lacks b' ' (format_int z)
unfolding format_int
format_int-Lacks (pos n) = digit_Lacks_space (format_nat n) (format_nat-All n)
format_int-Lacks (negsuc n) = negative_Lacks (format_nat (suc n)) (format_nat-All (suc n))

module _ (who : WhoRegex) where
  name_and_mail-hg_author :
      (name email : Bytes)
      → IsPlain name
      → IsPlain email
      → (email ≡ [] → Lacks b'@' name)
      → name_and_mail who (hg_author name email) ≡ (name, email)
  unfolding name_and_mail hg_author
  name_and_mail-hg_author [] email n m h =
      rw (who.bare email [] (IsPlain-IsMail email m), name_and_mail)
  name_and_mail-hg_author (c ∷ name) [] n m h = rw (
    who.no_match (c ∷ name) (IsPlain-Lacks (c ∷ name) n),
    name_and_mail,
    contains-Lacks b'@' (c ∷ name) (h refl),
  )
  name_and_mail-hg_author (c ∷ name) (e ∷ email) n m h = rw (
    who.spaced (c ∷ name) (e ∷ email) [] (IsPlain-IsName (c ∷ name) n)
        (IsPlain-IsMail (e ∷ email) m),
    name_and_mail,
  )

  normalize_hg_author-hg_author :
      (name email : Bytes)
      → IsPlain name
      → IsPlain email
      → (email ≡ [] → Lacks b'@' name)
      → normalize_hg_author who (hg_author name email) ≡ (name, email)
  unfolding normalize_hg_author
  normalize_hg_author-hg_author name email n m h =
      rw (name_and_mail-hg_author name email n m h, cleanup_plain name n, cleanup_plain email m)

  -- Who, when and where are read back from the fields of a Mercurial author, where the name and the
  -- address have no angle bracket and no newline, a name with no address has no at sign, and the
  -- numbers fit.
  pub authorship_from_hg-hg_from_authorship :
      (a : Authorship) → IsHgWho a → authorship_from_hg who (hg_from_authorship a) ≡ some a
  unfolding authorship_from_hg hg_from_authorship
  authorship_from_hg-hg_from_authorship a v = rw (
    normalize_hg_author-hg_author a.name a.email v.name v.email v.no_at,
    parse_u64-format_nat a.timestamp v.timestamp,
    parse_i32-format_int a.utcoffset v.utcoffset,
  )

  git_from_hg-printed :
      (a : Authorship)
      → IsGitWho a
      → IsHgWho a
      → (hg : HgAuthorship) × (hg_from_git who (git_from_authorship a) ≡ some hg)
        × (git_from_hg who hg ≡ some (git_from_authorship a))
  unfolding git_from_hg hg_from_git
  git_from_hg-printed a g h = (
    hg_from_authorship a,
    rw (authorship_from_git-git_from_authorship who a g),
    rw (authorship_from_hg-hg_from_authorship a h),
  )

  -- The text of a git author that is a name, a space, an address in angle brackets, a timestamp
  -- without leading zeros, and `+hhmm` or `-hhmm`, converted to Mercurial's form and back, is
  -- unchanged. The name may be empty, but not the space before the bracket; neither the name nor the
  -- address has an angle bracket or a newline, and a name with an empty address has no at sign. The
  -- timestamp is a u64, there are less than 60 minutes, the offset in seconds is an i32, and it is
  -- not `-0000`.
  pub git_from_hg-hg_from_git :
      (name email : Bytes) (timestamp : ℕ) (west : Bool) (hours minutes : ℕ)
      → IsPlain name
      → IsPlain email
      → (email ≡ [] → Lacks b'@' name)
      → timestamp ≤ max_u64
      → minutes < 60
      → (hours * 60 + minutes) * 60 < 2 ^ 31
      → (west ≡ true → hours + minutes ≢ 0)
      → (hg : HgAuthorship) × (hg_from_git who (git_author name email timestamp west hours minutes)
          ≡ some hg)
        × (git_from_hg who hg ≡ some (git_author name email timestamp west hours minutes))
  git_from_hg-hg_from_git name email timestamp west hours minutes n e no_at t small fits nonzero =
      let (whole, i32) = offset_of-fits west hours minutes fits in
      let a : Authorship = record {
        name = name;
        email = email;
        timestamp = timestamp;
        utcoffset = offset_of west hours minutes;
      } in
      let printed : git_from_authorship a ≡ git_author name email timestamp west hours minutes =
        git_text a
        ∙ ap (λ tz. who_text a ++ b' ' ∷ (format_nat timestamp ++ b' ' ∷ tz))
            (tz_text-offset_of west hours minutes small fits nonzero) in
      rw (← printed) (
        git_from_hg-printed a
          (record {
            name = IsPlain-IsName name n;
            email = IsPlain-IsMail email e;
            timestamp = t;
            utcoffset = whole;
          })
          (record { name = n; email = e; no_at = no_at; timestamp = t; utcoffset = i32 }))

  -- A committer in Mercurial's form is read back, where the name and the address have no angle bracket
  -- and no newline, a name with no address has no at sign, the numbers fit, and an offset below zero
  -- is of quarters of an hour or at most -1800, so that it is not taken for one in git's form.
  pub authorship_from_committer-committer_from_authorship :
      (a : Authorship)
      → IsHgWho a
      → IsClearOffset a.utcoffset
      → authorship_from_committer who (committer_from_authorship a) ≡ some a
  unfolding authorship_from_committer committer_from_authorship
  authorship_from_committer-committer_from_authorship a v clear = rw (
    rsplitn_exact_3-append b' ' (hg_author a.name a.email) (format_nat a.timestamp)
        (format_int a.utcoffset) (digit_Lacks_space _ (format_nat-All a.timestamp))
        (format_int-Lacks a.utcoffset),
    normalize_hg_author-hg_author a.name a.email v.name v.email v.no_at,
    parse_u64-format_nat a.timestamp v.timestamp,
    parse_i32-format_int a.utcoffset v.utcoffset,
    is_git_offset-format_int a.utcoffset clear,
  )
