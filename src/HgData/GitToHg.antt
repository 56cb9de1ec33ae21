-- ===== src/HgData/GitToHg.antt =====
-- Authorship information survives being written in git's form and read back.
use git_cinnabar.Common.{
  ◌≤◌, ◌≡◌, ◌≢◌, suc, ℕ, [], ◌∷◌, ◌++◌, Bytes, codes, All, Lacks, All-append, some, arith,
  append_assoc,
}
use git_cinnabar.HgData.Offset.{IsMinutes, tz_text, parse-tz_text}
use git_cinnabar.HgData.Who.{WhoRegex, IsName, IsMail}
use git_cinnabar.HgData.{
  Authorship, git_from_authorship, authorship_from_git, hhmm_text, div, rem, abs,
}
use git_cinnabar.Util.Number.RoundTrip.{
  IsDigit, format_nat-All, parse_u64-format_nat, format_02-All,
}
use git_cinnabar.Util.Number.{ℤ, pos, negsuc, max_u64, format_nat, format_02, format_02_int}
use git_cinnabar.Util.Splits.{rsplitn_exact_3-append}

-- What git accepts: no angle brackets or newlines, and an offset of whole minutes.
pub record IsGitWho (a : Authorship) : Type 0 where
  pub name : IsName a.name
  pub email : IsMail a.email
  pub timestamp : a.timestamp ≤ max_u64
  pub utcoffset : IsMinutes a.utcoffset

pub digit_Lacks_space : (s : Bytes) → All IsDigit s → Lacks b' ' s
digit_Lacks_space [] h = tt
digit_Lacks_space (c ∷ s) ((lo, hi), hs) = (λ e. omega arith, digit_Lacks_space s hs)

format_02_int-Lacks : (z : ℤ) → Lacks b' ' (format_02_int z)
unfolding format_02_int
format_02_int-Lacks (pos n) = digit_Lacks_space (format_02 n) (format_02-All n)
format_02_int-Lacks (negsuc n) =
    (ground arith, digit_Lacks_space (format_nat (suc n)) (format_nat-All (suc n)))

two-Lacks : (x y : ℤ) → Lacks b' ' (format_02_int x ++ format_02_int y)
two-Lacks x y =
    All-append (λ (c : ℕ). c ≢ b' ') (format_02_int x) (format_02_int y) (format_02_int-Lacks x)
      (format_02_int-Lacks y)

tz_text-Lacks : (z : ℤ) → Lacks b' ' (tz_text z)
unfolding hhmm_text
tz_text-Lacks z =
    let utcoffset : ℤ = div (abs z) 60 in
    (ground arith, two-Lacks (div utcoffset 60) (rem utcoffset 60))

abbrev pub who_text : Authorship → Bytes
who_text a = a.name ++ (codes " <" ++ (a.email ++ b'>' ∷ []))

pub git_text :
    (a : Authorship)
    → git_from_authorship a
      ≡ who_text a ++ b' ' ∷ (format_nat a.timestamp ++ b' ' ∷ tz_text a.utcoffset)
unfolding git_from_authorship
git_text a = simp append_assoc

module _ (who : WhoRegex) where
  -- Who, when and where are read back from the text of a git author, where the name and the address
  -- have no newline, the name no `<` and the address no `>`, the timestamp is a u64 and the offset is
  -- of whole minutes that an i32 holds.
  pub authorship_from_git-git_from_authorship :
      (a : Authorship) → IsGitWho a → authorship_from_git who (git_from_authorship a) ≡ some a
  unfolding authorship_from_git
  authorship_from_git-git_from_authorship a v =
      let (tz, read, back) = parse-tz_text a.utcoffset v.utcoffset in
      let parts =
        rsplitn_exact_3-append b' ' (who_text a) (format_nat a.timestamp) (tz_text a.utcoffset)
          (digit_Lacks_space _ (format_nat-All a.timestamp)) (tz_text-Lacks a.utcoffset) in
      rw (
        git_text a,
        parts,
        who.spaced a.name a.email [] v.name v.email,
        read,
        parse_u64-format_nat a.timestamp v.timestamp,
        back,
      )
