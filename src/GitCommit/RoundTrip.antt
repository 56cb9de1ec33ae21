-- ===== src/GitCommit/RoundTrip.antt =====
-- The text of a commit, read back (src/git/commit.rs).
use git_cinnabar.Common.{
  ℕ, ◌≡◌, ap, ◌∙◌, List, [], ◌∷◌, ◌++◌, Bytes, codes, Lacks, All, All-append, none, some, bytes_eq,
  append_assoc, append-nil, arith,
}
use git_cinnabar.Util.Splits.{join, split_once-append}
use git_cinnabar.Oid.{Oid, display}
use git_cinnabar.Oid.Hex.{HexCrate}
use git_cinnabar.Oid.RoundTrip.{IsOid, from_str-display}
use git_cinnabar.Store.Lines.{Bstr, newline, trim_cr, IsLine, lines-join}
use git_cinnabar.Store.Metadata.RoundTrip.{field-IsLine, display-IsValue}
use git_cinnabar.GitCommit.{Commit, Header, no_header, parse_headers, parse}
use git_cinnabar.GitCommit.Body.{split_body-join}

-- Ids of twenty bytes, and names without a newline and without a carriage return at their end.
pub record IsCommit (c : Commit) : Type 0 where
  pub tree : IsOid c.tree
  pub parents : All IsOid c.parents
  pub author : Lacks newline c.author × (trim_cr c.author ≡ c.author)
  pub committer : Lacks newline c.committer × (trim_cr c.committer ≡ c.committer)

abbrev parent_lines : List Oid → List Bytes
parent_lines [] = []
parent_lines (p ∷ ps) = (codes "parent " ++ display p) ∷ parent_lines ps

abbrev last_lines : Commit → List Bytes
last_lines c = (codes "author " ++ c.author) ∷ (codes "committer " ++ c.committer) ∷ []

-- The text of a commit, as git writes it: the lines of the header, an empty line, the body.
abbrev pub commit_text : Commit → Bytes
commit_text c =
    join newline ((codes "tree " ++ display c.tree) ∷ (parent_lines c.parents ++ last_lines c))
    ++ newline ∷ (newline ∷ c.body)

oid-IsLine :
    (k : ℕ) (key : Bytes) (o : Oid)
    → Lacks newline (k ∷ (key ++ b' ' ∷ []))
    → IsLine (k ∷ (key ++ b' ' ∷ display o))
oid-IsLine k key o h =
    let (lacks, t) = display-IsValue o in field-IsLine k key (display o) h lacks t

parent_lines-IsLine : (ps : List Oid) → All IsLine (parent_lines ps)
parent_lines-IsLine [] = tt
parent_lines-IsLine (p ∷ ps) =
    (oid-IsLine b'p' (codes "arent") p (omega arith), parent_lines-IsLine ps)

header-IsLine :
    (c : Commit)
    → IsCommit c
    → All IsLine ((codes "tree " ++ display c.tree) ∷ (parent_lines c.parents ++ last_lines c))
header-IsLine c v = (
  oid-IsLine b't' (codes "ree") c.tree (omega arith),
  All-append IsLine (parent_lines c.parents) (last_lines c) (parent_lines-IsLine c.parents) (
    field-IsLine b'a' (codes "uthor") c.author (omega arith) v.author.0 v.author.1,
    (
      field-IsLine b'c' (codes "ommitter") c.committer (omega arith) v.committer.0 v.committer.1,
      tt,
    ),
  ),
)

module _ (hex : HexCrate) where
  abbrev after_tree : Oid → List Oid → Header
  after_tree t ps = record { tree = some t; parents = ps; author = none; committer = none }

  tree_line :
      (t : Oid) (rest : List Bytes)
      → IsOid t
      → parse_headers hex ((codes "tree " ++ display t) ∷ rest) no_header
        ≡ parse_headers hex rest (after_tree t [])
  unfolding parse_headers bytes_eq
  tree_line t rest v = rw (
    parse_headers,
    split_once-append b' ' (codes "tree") (display t) (omega arith),
    from_str-display hex t v,
  )

  parent_line :
      (t p : Oid) (ps : List Oid) (rest : List Bytes)
      → IsOid p
      → parse_headers hex ((codes "parent " ++ display p) ∷ rest) (after_tree t ps)
        ≡ parse_headers hex rest (after_tree t (ps ++ p ∷ []))
  unfolding parse_headers bytes_eq
  parent_line t p ps rest v = rw (
    parse_headers,
    split_once-append b' ' (codes "parent") (display p) (omega arith),
    from_str-display hex p v,
  )

  all_parents :
      (t : Oid) (ps qs : List Oid) (rest : List Bytes)
      → All IsOid qs
      → parse_headers hex (parent_lines qs ++ rest) (after_tree t ps)
        ≡ parse_headers hex rest (after_tree t (ps ++ qs))
  all_parents t ps [] rest v = rw (append-nil ps)
  all_parents t ps (q ∷ qs) rest (v, vs) =
      parent_line t q ps (parent_lines qs ++ rest) v
      ∙ all_parents t (ps ++ q ∷ []) qs rest vs
      ∙ ap (λ x. parse_headers hex rest (after_tree t x)) (append_assoc ps (q ∷ []) qs)

  both_names :
      (c : Commit)
      → parse_headers hex (last_lines c) (after_tree c.tree c.parents)
        ≡ some (record {
          tree = some c.tree;
          parents = c.parents;
          author = some c.author;
          committer = some c.committer;
        })
  unfolding parse_headers bytes_eq
  both_names c = rw (
    parse_headers,
    split_once-append b' ' (codes "author") c.author (omega arith),
    split_once-append b' ' (codes "committer") c.committer (omega arith),
  )

  -- The text of a commit, as git writes it, is parsed as that commit, its parents in order, if its ids
  -- have twenty bytes, and its names no newline and no carriage return at their end.
  pub parse-commit_text :
      (b : Bstr) (c : Commit) → IsCommit c → parse hex b (commit_text c) ≡ some c
  unfolding parse
  parse-commit_text b c v =
      let lines = header-IsLine c v in
      rw (
        split_body-join (codes "tree " ++ display c.tree) (parent_lines c.parents ++ last_lines c)
            c.body lines,
        lines-join b (codes "tree " ++ display c.tree) (parent_lines c.parents ++ last_lines c)
            lines,
        tree_line c.tree (parent_lines c.parents ++ last_lines c) v.tree,
        all_parents c.tree [] c.parents (last_lines c) v.parents,
        both_names c,
      )
