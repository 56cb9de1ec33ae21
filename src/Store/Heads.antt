-- ===== src/Store/Heads.antt =====
-- src/store.rs: `ChangesetHeads`. The set of heads is the list of its ids upwards; `none` is a panic.
pub mod Flags
pub mod Remove
pub mod Link
pub mod Insert
pub mod Invariant
pub mod Step
pub mod Correct
pub mod Listing
pub mod Load
use git_cinnabar.Common.{
  ℕ, zero, suc, ◌-◌, Bool, true, false, not, List, [], ◌∷◌, Bytes, Option, none, some, ◌>>=◌, ◌==◌,
  ltb, if◌then◌else◌, is_empty, get_elem?, bytes_eq,
}
use git_cinnabar.Util.{splitn_exact_2}
use git_cinnabar.Oid.{Oid, from_str}
use git_cinnabar.Oid.Hex.{HexCrate}
use git_cinnabar.GitCommit.{Commit}
use git_cinnabar.Store.Lines.{Bstr}
use git_cinnabar.Store.Dag.{DagNode, Dag, DagNodeId, to_offset, get, modify}
use git_cinnabar.Store.Dag

abbrev pub id_eq : Oid → Oid → Bool
id_eq a b = bytes_eq a.raw b.raw

pub record ChangesetInfo : Type 0 where
  pub has_children : Bool
  pub branch : Bytes

pub record ChangesetHeads : Type 0 where
  pub dag : Dag Oid ChangesetInfo
  pub heads : List DagNodeId

abbrev pub new : ChangesetHeads
new = record { dag = Dag.new; heads = [] }

unfoldable pub set_insert : DagNodeId → List DagNodeId → List DagNodeId
set_insert id [] = id ∷ []
set_insert id (x ∷ xs) =
    let later = set_insert id xs in
    if ltb id x then id ∷ (x ∷ xs) else if id == x then x ∷ xs else x ∷ later

unfoldable pub set_remove : DagNodeId → List DagNodeId → List DagNodeId
set_remove id [] = []
set_remove id (x ∷ xs) = let later = set_remove id xs in if x == id then xs else x ∷ later

abbrev pub with_children : ChangesetInfo → ChangesetInfo
with_children data' = record data' { has_children = true }

-- The loop over the parents.
unfoldable pub link : Bytes → List Oid → ChangesetHeads → ChangesetHeads
unfolding get modify set_remove
link branch [] s = s
link branch (p ∷ ps) s = elim (get id_eq p s.dag) [
  | none ↦ link branch ps s
  | some parent ↦ link branch ps (record {
    dag = modify id_eq p with_children s.dag;
    heads = if bytes_eq parent.1.branch branch then set_remove parent.0 s.heads else s.heads;
  })
]

unfoldable pub add : Oid → List Oid → Bytes → ChangesetHeads → Option ChangesetHeads
unfolding Dag.add link set_insert
add cs parents branch s =
    Dag.add id_eq cs parents (record { has_children = false; branch = branch }) s.dag >>= λ r.
    some (link branch parents (record { dag = r.1; heads = set_insert r.0 s.heads }))

-- `branch_heads`, by `get_by_id`.
unfoldable pub branch_heads_of :
    Dag Oid ChangesetInfo → List DagNodeId → Option (List (Oid × Bytes))
branch_heads_of d [] = some []
branch_heads_of d (id ∷ ids) = do
  n ← get_elem? d.dag (to_offset id)
  rest ← branch_heads_of d ids
  some ((n.node, n.content.branch) ∷ rest)

unfoldable pub branch_heads : ChangesetHeads → Option (List (Oid × Bytes))
unfolding branch_heads_of
branch_heads s = branch_heads_of s.dag s.heads

-- A head of a branch can have children in other branches.
unfoldable pub heads_of : Dag Oid ChangesetInfo → List DagNodeId → Option (List Oid)
heads_of d [] = some []
heads_of d (id ∷ ids) = do
  n ← get_elem? d.dag (to_offset id)
  rest ← heads_of d ids
  some (if n.content.has_children then rest else n.node ∷ rest)

unfoldable pub heads : ChangesetHeads → Option (List Oid)
unfolding heads_of
heads s = heads_of s.dag s.heads

-- The lines of the body of the commit that keeps the heads: an id and a branch each.
unfoldable pub add_lines : HexCrate → List Bytes → ChangesetHeads → Option ChangesetHeads
unfolding add splitn_exact_2 from_str
add_lines hex [] s = some s
add_lines hex (line ∷ lines) s = splitn_exact_2 b' ' line >>= λ parts.
    from_str hex parts.0 >>= λ cs. add cs [] parts.1 s >>= λ s'. add_lines hex lines s'

-- `from_metadata`, of the commit that is read.
unfoldable pub from_metadata : HexCrate → Bstr → Commit → Option ChangesetHeads
unfolding add_lines
from_metadata hex b commit = add_lines hex (b.lines commit.body) new
