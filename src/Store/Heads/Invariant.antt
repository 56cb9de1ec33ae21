-- ===== src/Store/Heads/Invariant.antt =====
-- What `ChangesetHeads` keeps (src/store.rs).
use git_cinnabar.Common.{ℕ, suc, ◌-◌, ◌≡◌, ◌≢◌, true, some, get_elem?}
use git_cinnabar.Oid.{Oid}
use git_cinnabar.Store.Dag.{Dag, DagNodeId, parent_offsets}
use git_cinnabar.Store.Dag.Marks.{In}
use git_cinnabar.Store.Dag.Sorted.{IsStrict}
use git_cinnabar.Store.Dag.Valid.{new-IsValid}
use git_cinnabar.Store.Heads.{id_eq, ChangesetInfo, ChangesetHeads, new}
use git_cinnabar.Store.Heads.Flags.{Node, IsGraph}

-- A child of the node at `i`.
pub record Child (d : Dag Oid ChangesetInfo) (i : ℕ) : Type 0 where
  pub place : ℕ
  pub at : Node
  pub here : get_elem? d.dag place ≡ some at
  pub parent : In i (parent_offsets at)

-- No child is on the branch of the node `n` at `i`.
abbrev pub IsBranchHead : Dag Oid ChangesetInfo → ℕ → Node → Type 0
IsBranchHead d i n = (c : Child d i) → c.at.content.branch ≢ n.content.branch

pub record IsHeads (s : ChangesetHeads) : Type 0 where
  pub graph : IsGraph s.dag
  pub ordered : IsStrict s.heads
  pub child_of_flag :
      (i : ℕ) (n : Node)
      → get_elem? s.dag.dag i ≡ some n
      → n.content.has_children ≡ true
      → Child s.dag i
  pub flag_of_child :
      (i : ℕ) (n : Node)
      → get_elem? s.dag.dag i ≡ some n
      → Child s.dag i
      → n.content.has_children ≡ true
  pub sound :
      (id : DagNodeId)
      → In id s.heads
      → (n : Node) × (id ≡ suc (id - 1))
        × (get_elem? s.dag.dag (id - 1) ≡ some n)
        × IsBranchHead s.dag (id - 1) n
  pub full :
      (i : ℕ) (n : Node)
      → get_elem? s.dag.dag i ≡ some n
      → IsBranchHead s.dag i n
      → In (suc i) s.heads

pub new-IsHeads : IsHeads new
new-IsHeads = record {
  graph = new-IsValid id_eq;
  ordered = tt;
  child_of_flag = λ i n g h. cc;
  flag_of_child = λ i n g c. cc;
  sound = λ id m. absurd m;
  full = λ i n g h. cc;
}
