-- ===== src/Store/Heads/Correct.antt =====
-- `ChangesetHeads::add` (src/store.rs).
use git_cinnabar.Common.{
  ◌+◌, ◌^◌, ◌≤◌, ◌<◌, ◌≡◌, refl, false, List, Bytes, none, some, >>=-eq-some, length,
}
use git_cinnabar.Oid.{Oid}
use git_cinnabar.Store.Dag.{Dag, DagNodeId, parent_offsets}
use git_cinnabar.Store.Dag.Marks.{In}
use git_cinnabar.Store.Dag.Add.{add-Added, add-IsValid}
use git_cinnabar.Store.Heads.{id_eq, ChangesetInfo, ChangesetHeads, add, link, set_insert}
use git_cinnabar.Store.Heads.Flags.{id_eq_iff}
use git_cinnabar.Store.Heads.Link.{link-Linked}
use git_cinnabar.Store.Dag
use git_cinnabar.Store.Dag.Grow.{add-some}
use git_cinnabar.Store.Heads.Insert.{set_insert-IsStrict}
use git_cinnabar.Store.Heads.Invariant.{IsHeads}
use git_cinnabar.Store.Heads.Step.{added-IsHeads}

-- Adding a changeset that is not its own parent keeps the record of the heads right: the graph is
-- valid, a node has the flag `has_children` exactly if it has a child, and the set of heads is, in
-- order, that of the nodes without a child on their own branch.
pub add-some-IsHeads :
    (s s' : ChangesetHeads) (cs : Oid) (parents : List Oid) (branch : Bytes)
    → IsHeads s
    → ¬ In cs parents
    → add cs parents branch s ≡ some s'
    → IsHeads s'
unfolding add
add-some-IsHeads s s' cs parents branch v apart h =
    let content : ChangesetInfo = record { has_children = false; branch = branch } in
    let ((id, d1), e, k) = >>=-eq-some (Dag.add id_eq cs parents content s.dag) _ h in
    let a = add-Added id_eq cs parents content s.dag id d1 v.graph e in
    let graph1 = add-IsValid id_eq id_eq_iff cs parents content s.dag id d1 v.graph e in
    let s1 : ChangesetHeads = record { dag = d1; heads = set_insert id s.heads } in
    let l = link-Linked branch parents s1 graph1 (set_insert-IsStrict id s.heads v.ordered) in
    let same : link branch parents s1 ≡ s' = cc in
    added-IsHeads s v cs parents branch id d1 a s' (rw (same) at l) apart graph1

add-linked :
    (s : ChangesetHeads) (cs : Oid) (parents : List Oid) (branch : Bytes) (id : DagNodeId)
    (d' : Dag.Dag Oid ChangesetInfo)
    → Dag.add id_eq cs parents (record { has_children = false; branch = branch }) s.dag
      ≡ some (id, d')
    → (s' : ChangesetHeads) × (add cs parents branch s ≡ some s')
unfolding add
add-linked s cs parents branch id d' e = rw (e) (_, refl)

-- A changeset that the record of the heads does not have is added to it without a panic, with at most
-- two parents, none of them itself, while ids have room in 32 bits. The record stays right: the graph
-- is valid, a node has the flag `has_children` exactly if it has a child, and the set of heads is, in
-- order, that of the nodes without a child on their own branch.
pub add-IsHeads :
    (s : ChangesetHeads) (cs : Oid) (parents : List Oid) (branch : Bytes)
    → IsHeads s
    → ¬ In cs parents
    → length parents ≤ 2
    → Dag.lookup id_eq cs s.dag.ids ≡ none
    → length s.dag.dag + 1 < 2 ^ 32
    → (s' : ChangesetHeads) × (add cs parents branch s ≡ some s') × IsHeads s'
add-IsHeads s cs parents branch v apart few fresh room =
    let content : ChangesetInfo = record { has_children = false; branch = branch } in
    let (d', e) = add-some id_eq id_eq_iff cs parents content s.dag few fresh room in
    let (s', k) = add-linked s cs parents branch (length s.dag.dag + 1) d' e in
    (s', k, add-some-IsHeads s s' cs parents branch v apart k)
