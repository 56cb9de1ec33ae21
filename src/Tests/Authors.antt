-- ===== src/Tests/Authors.antt =====
-- Authors and offsets, and hashes of files, on concrete inputs.
use git_cinnabar.Common.{
  false, ◌↔◌, ◌≡◌, ◌≢◌, refl, [], ◌∷◌, ◌++◌, Bytes, codes, bytes_eq, cmp, inl, Option, none, some,
  arith,
}
use git_cinnabar.HgData.{
  HgAuthorship, Authorship, committer_from_authorship, authorship_from_committer, git_from_hg,
  hg_from_git, git_from_authorship, hhmm_text, is_positive,
}
use git_cinnabar.HgData.HgRoundTrip.{
  IsHgWho, git_author, git_from_hg-hg_from_git, authorship_from_committer-committer_from_authorship,
}
use git_cinnabar.HgData.Hash.{IsGiven, hash_data, find_file_parents, find_file_parents-none}
use git_cinnabar.HgData.Who.{who_regex}
use git_cinnabar.Oid.{Oid, zeros}
use git_cinnabar.Util.Number.{negsuc, format_nat, format_02, format_02_int}

-- Two hours east of Greenwich.
abbrev somebody : Authorship
somebody = record {
  name = codes "A B";
  email = codes "a@b";
  timestamp = 1500000000;
  utcoffset = negsuc 7199;
}

somebody-IsHgWho : IsHgWho somebody
somebody-IsHgWho = record {
  name = ground arith;
  email = ground arith;
  no_at = λ h. cc;
  timestamp = omega arith;
  utcoffset = omega arith;
}

abbrev author_text : Bytes
author_text = git_author (codes "A B") (codes "a@b") 1500000000 false 2 30

author_text_read : author_text ≡ codes "A B <a@b> 1500000000 +0230"
unfolding format_nat format_02
author_text_read = refl

git_from_hg-hg_from_git_example :
    (hg : HgAuthorship) × (hg_from_git who_regex author_text ≡ some hg)
    × (git_from_hg who_regex hg ≡ some author_text)
git_from_hg-hg_from_git_example =
    git_from_hg-hg_from_git who_regex (codes "A B") (codes "a@b") 1500000000 false 2 30
      (ground arith) (ground arith) (λ h. cc) (omega arith) (omega arith) (omega arith) (λ h. cc)

authorship_from_committer_example :
    authorship_from_committer who_regex (committer_from_authorship somebody) ≡ some somebody
authorship_from_committer_example =
    authorship_from_committer-committer_from_authorship who_regex somebody somebody-IsHgWho
      (inl refl)

-- In place of SHA-1, the data itself.
abbrev no_hash : Bytes → Oid
no_hash text = record { raw = text }

abbrev one_parent : Oid
one_parent = record { raw = 1 ∷ [] }

abbrev node : Oid
node = record { raw = zeros 20 ++ 1 ∷ codes "x" }

found :
    find_file_parents no_hash node none (some one_parent) (codes "x") ≡ some (none, some one_parent)
unfolding find_file_parents hash_data bytes_eq cmp
found = refl

not_found : find_file_parents no_hash node none none (codes "x") ≡ none
unfolding find_file_parents hash_data bytes_eq cmp
not_found = refl

find_file_parents-none_example :
    (find_file_parents no_hash node none (some one_parent) (codes "x") ≡ none) ↔ (
      (x y : Option Oid)
      → IsGiven none (some one_parent) x
      → IsGiven none (some one_parent) y
      → hash_data no_hash x y (codes "x") ≢ node)
find_file_parents-none_example =
    find_file_parents-none no_hash node none (some one_parent) (codes "x")

-- The least i32 is its own `abs()`.
least_offset :
    git_from_authorship (record somebody { utcoffset = negsuc 2147483647 })
    ≡ codes "A B <a@b> 1500000000 +-596523-14"
unfolding git_from_authorship hhmm_text format_02_int is_positive
least_offset = refl
