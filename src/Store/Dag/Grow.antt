-- ===== src/Store/Dag/Grow.antt =====
-- What `Dag::add` does where it does not panic (src/store.rs).
use git_cinnabar.Common.{
  ℕ, ◌+◌, ◌^◌, ◌≤◌, ◌<◌, ◌≡◌, refl, ◌↔◌, Bool, true, List, [], ◌∷◌, ◌++◌, none, some, le→leb,
  lt→ltb, length,
}
use git_cinnabar.Store.Dag.{DagNode, Dag, try_from_offset, parent_offsets, lookup, add}
use git_cinnabar.Store.Dag.Marks.{In}
use git_cinnabar.Store.Dag.Valid.{IsAt, IsValid}
use git_cinnabar.Store.Dag.Add.{add-Added, Added-parents, add-IsValid}

try_from_offset-small : (n : ℕ) → n + 1 < 2 ^ 32 → try_from_offset n ≡ some (n + 1)
unfolding try_from_offset
try_from_offset-small n h = rw (lt→ltb (n + 1) (2 ^ 32) h)

module _ {N T : Type 0} (eq : N → N → Bool) (eq_iff : (a b : N) → (eq a b ≡ true) ↔ (a ≡ b)) where
  pub add-some :
      (node : N) (parents : List N) (content : T) (d : Dag N T)
      → length parents ≤ 2
      → lookup eq node d.ids ≡ none
      → length d.dag + 1 < 2 ^ 32
      → (d' : Dag N T) × (add eq node parents content d ≡ some (length d.dag + 1, d'))
  unfolding add
  add-some node parents content d few fresh room =
      rw (le→leb (length parents) 2 few, try_from_offset-small (length d.dag) room, fresh) (_, refl)

  -- To a valid graph, a node that it does not have is added with at most two parents, while ids have
  -- room in 32 bits, without a panic. The graph stays valid, keeps its nodes, and the new one comes
  -- behind them; the parents of the new node are those of the given ones that the graph has.
  pub add-grows :
      (node : N) (parents : List N) (content : T) (d : Dag N T)
      → IsValid eq d
      → length parents ≤ 2
      → lookup eq node d.ids ≡ none
      → length d.dag + 1 < 2 ^ 32
      → (d' : Dag N T) × (add eq node parents content d ≡ some (length d.dag + 1, d'))
        × IsValid eq d'
        × (x : DagNode N T) × (d'.dag ≡ d.dag ++ x ∷ [])
        × (x.node ≡ node)
        × ((i : ℕ) → In i (parent_offsets x) ↔ IsAt d parents i)
  add-grows node parents content d v few fresh room =
      let (d', e) = add-some node parents content d few fresh room in
      let a = add-Added eq node parents content d (length d.dag + 1) d' v e in
      (
        d',
        e,
        add-IsValid eq eq_iff node parents content d (length d.dag + 1) d' v e,
        a.entry,
        a.dag,
        a.named,
        Added-parents eq v a,
      )
