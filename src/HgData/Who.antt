-- ===== src/HgData/Who.antt =====
-- What src/hg_data.rs relies on of the crate `regex` at `WHO_RE`.
use git_cinnabar.Common.{
  ◌≡◌, ◌≢◌, refl, [], ◌∷◌, ◌++◌, Bytes, All, Lacks, Option, none, some, ◌==◌, ◌>>=◌, ◌&&◌, arith,
  if◌then◌else◌, codes,
}

-- `.` matches no newline.
abbrev pub IsName : Bytes → Type 0
IsName = All (λ c. (c ≢ b'<') × (c ≢ b'\n'))

abbrev pub IsMail : Bytes → Type 0
IsMail = All (λ c. (c ≢ b'>') × (c ≢ b'\n'))

pub record WhoRegex : Type 0 where
  -- The two groups of the first match.
  pub captures : Bytes → Option (Bytes × Bytes)
  -- The first group is the shortest that lets the rest match, so it ends before the space.
  pub spaced :
      (name mail rest : Bytes)
      → IsName name
      → IsMail mail
      → captures (name ++ (codes " <" ++ (mail ++ b'>' ∷ rest))) ≡ some (name, mail)
  pub bare :
      (mail rest : Bytes) → IsMail mail → captures (b'<' ∷ (mail ++ b'>' ∷ rest)) ≡ some ([], mail)
  -- A match has an opening bracket in it.
  pub no_match : (s : Bytes) → Lacks b'<' s → captures s ≡ none

-- The expression `^(.*?) ?(?:<(.*?)>)` as a function. The address, up to its end, with no newline.
unfoldable pub until_close : Bytes → Option Bytes
until_close [] = none
until_close (c ∷ cs) =
    let rest = until_close cs in
    if c == b'>' then some [] else if c == b'\n' then none else rest >>= λ m. some (c ∷ m)

-- The second group, where the first one ends here.
unfoldable pub here : Bytes → Option Bytes
here [] = none
here (c ∷ []) = none
here (c ∷ (d ∷ cs)) =
    if c == b'<'
    then until_close (d ∷ cs)
    else if c == b' ' && d == b'<'
    then until_close cs
    else none

unfoldable pub who_re : Bytes → Option (Bytes × Bytes)
unfolding here
who_re [] = none
who_re (c ∷ cs) =
    let rest = who_re cs in
    elim (here (c ∷ cs)) [
      | some mail ↦ some ([], mail)
      | none ↦ if c == b'\n' then none else rest >>= λ (name, mail). some (c ∷ name, mail)
    ]

until_close-append :
    (mail rest : Bytes) → IsMail mail → until_close (mail ++ b'>' ∷ rest) ≡ some mail
unfolding until_close
until_close-append [] rest h = refl
until_close-append (c ∷ mail) rest ((h, k), hs) = ground (arith, until_close-append mail rest hs)

pub who_re-bare :
    (mail rest : Bytes) → IsMail mail → who_re (b'<' ∷ (mail ++ b'>' ∷ rest)) ≡ some ([], mail)
unfolding who_re here
who_re-bare [] rest h = unfold until_close in refl
who_re-bare (c ∷ mail) rest h = rw (until_close-append (c ∷ mail) rest h, here, who_re)

pub who_re-spaced :
    (name mail rest : Bytes)
    → IsName name
    → IsMail mail
    → who_re (name ++ (codes " <" ++ (mail ++ b'>' ∷ rest))) ≡ some (name, mail)
unfolding who_re here
who_re-spaced [] mail rest h k = rw (until_close-append mail rest k, who_re)
who_re-spaced (c ∷ []) mail rest ((h, h'), _) k = ground (arith, who_re-spaced [] mail rest tt k)
who_re-spaced (c ∷ (d ∷ name)) mail rest ((h, h'), hs) k =
    ground (arith, who_re-spaced (d ∷ name) mail rest hs k)

pub who_re-no_match : (s : Bytes) → Lacks b'<' s → who_re s ≡ none
unfolding who_re here
who_re-no_match [] h = refl
who_re-no_match (c ∷ []) h = ground arith
who_re-no_match (c ∷ (d ∷ s)) (h, hs) = ground (arith, who_re-no_match (d ∷ s) hs)

unfoldable pub who_regex : WhoRegex
who_regex = record {
  captures = who_re;
  spaced = who_re-spaced;
  bare = who_re-bare;
  no_match = who_re-no_match;
}
