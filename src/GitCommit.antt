-- ===== src/GitCommit.antt =====
-- src/git/commit.rs: `Commit`, and the parser of its text. The lines are those of the crate `bstr`;
-- `none` is an error, or the panic of an id that is not UTF-8.
pub mod Body
pub mod RoundTrip
use git_cinnabar.Common.{
  ℕ, Bool, true, false, ◌&&◌, List, [], ◌∷◌, ◌++◌, Bytes, codes, Option, none, some, ◌>>=◌, ◌==◌,
  if◌then◌else◌, is_empty, bytes_eq,
}
use git_cinnabar.Util.{splitn_exact_2}
use git_cinnabar.Oid.{Oid, from_str}
use git_cinnabar.Oid.Hex.{HexCrate}
use git_cinnabar.Store.Lines.{Bstr}

pub record Commit : Type 0 where
  pub tree : Oid
  pub parents : List Oid
  pub author : Bytes
  pub committer : Bytes
  pub body : Bytes

-- The variables of `parse`.
pub record Header : Type 0 where
  pub tree : Option Oid
  pub parents : List Oid
  pub author : Option Bytes
  pub committer : Option Bytes

abbrev pub no_header : Header
no_header = record { tree = none; parents = []; author = none; committer = none }

-- `splitn_exact(b"\n\n")` at `N = 2`.
unfoldable pub split_body : Bytes → Option (Bytes × Bytes)
split_body [] = none
split_body (c ∷ []) = none
split_body (c ∷ (d ∷ cs)) =
    let later = split_body (d ∷ cs) in
    if c == 10 && d == 10 then some ([], cs) else (later >>= λ r. some (c ∷ r.0, r.1))

module _ (hex : HexCrate) where
  unfoldable pub parse_header : Bytes → Bytes → Header → Option Header
  unfolding from_str
  parse_header key value h =
      if bytes_eq key (codes "tree")
      then (from_str hex value >>= λ t. some (record h { tree = some t }))
      else if bytes_eq key (codes "parent")
      then (from_str hex value >>= λ p. some (record h { parents = h.parents ++ p ∷ [] }))
      else if bytes_eq key (codes "author")
      then some (record h { author = some value })
      else if bytes_eq key (codes "committer")
      then some (record h { committer = some value })
      else some h

  unfoldable pub parse_headers : List Bytes → Header → Option Header
  unfolding parse_header splitn_exact_2
  parse_headers [] h = some h
  parse_headers (line ∷ lines) h =
      let rest = splitn_exact_2 b' ' line >>= λ parts.
      parse_header parts.0 parts.1 h >>= parse_headers lines in
      if is_empty line then some h else rest

  -- `RawCommit::parse`.
  unfoldable pub parse : Bstr → Bytes → Option Commit
  unfolding split_body parse_headers
  parse b text = do
    parts ← split_body text
    h ← parse_headers (b.lines parts.0) no_header
    tree ← h.tree
    author ← h.author
    committer ← h.committer
    some (record {
      tree = tree;
      parents = h.parents;
      author = author;
      committer = committer;
      body = parts.1;
    })
