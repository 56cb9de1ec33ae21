-- ===== src/Store/Heads/Load.antt =====
-- The heads that are read from their commit (src/store.rs, `ChangesetHeads::from_metadata`).
use git_cinnabar.Common.{◌≡◌, List, [], ◌∷◌, Bytes, some, >>=-eq-some, some-eq}
use git_cinnabar.Util.{splitn_exact_2}
use git_cinnabar.Oid.{from_str}
use git_cinnabar.Oid.Hex.{HexCrate}
use git_cinnabar.GitCommit.{Commit}
use git_cinnabar.Store.Lines.{Bstr}
use git_cinnabar.Store.Heads.{ChangesetHeads, new, add, add_lines, from_metadata}
use git_cinnabar.Store.Heads.Invariant.{IsHeads, new-IsHeads}
use git_cinnabar.Store.Heads.Correct.{add-some-IsHeads}

add_lines-IsHeads :
    (hex : HexCrate) (lines : List Bytes) (s s' : ChangesetHeads)
    → IsHeads s
    → add_lines hex lines s ≡ some s'
    → IsHeads s'
unfolding add_lines
add_lines-IsHeads hex [] s s' v h = let same : s ≡ s' = some-eq h in rw (← same) v
add_lines-IsHeads hex (line ∷ lines) s s' v h =
    let (parts, cut, h1) = >>=-eq-some (splitn_exact_2 b' ' line) _ h in
    let (cs, read, h2) = >>=-eq-some (from_str hex parts.0) _ h1 in
    let (t, added, h3) = >>=-eq-some (add cs [] parts.1 s) _ h2 in
    add_lines-IsHeads hex lines t s' (add-some-IsHeads s t cs [] parts.1 v (λ m. m) added) h3

-- Where the commit can be read, the record of the heads that is made of it is right.
pub from_metadata-IsHeads :
    (hex : HexCrate) (b : Bstr) (commit : Commit) (s : ChangesetHeads)
    → from_metadata hex b commit ≡ some s
    → IsHeads s
unfolding from_metadata
from_metadata-IsHeads hex b commit s h =
    add_lines-IsHeads hex (b.lines commit.body) new s new-IsHeads h
