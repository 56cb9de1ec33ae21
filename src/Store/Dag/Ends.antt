-- ===== src/Store/Dag/Ends.antt =====
-- The nodes that `Dag::heads` and `Dag::roots` look for (src/store.rs).
use git_cinnabar.Common.{ℕ, ◌≡◌, Bool, true, List, some, get_elem?, arith}
use git_cinnabar.Store.Dag.{DagNode, parent_offsets}
use git_cinnabar.Store.Dag.Marks.{In}

module _ {N T : Type 0} (dag : List (DagNode N T)) (interesting : N → T → Bool) where
  -- An interesting node, and one of which it is a parent.
  pub record IsInteresting (i : ℕ) : Type 0 where
    pub at : DagNode N T
    pub here : get_elem? dag i ≡ some at
    pub is : interesting at.node at.content ≡ true

  pub record IsParent (i j : ℕ) : Type 0 where
    pub at : DagNode N T
    pub here : get_elem? dag j ≡ some at
    pub parent : In i (parent_offsets at)

  -- Interesting, without an interesting child.
  abbrev pub IsHead : ℕ → Type 0
  IsHead i = IsInteresting i × ((j : ℕ) → IsInteresting j → ¬ IsParent i j)

  -- Interesting, without an interesting parent.
  abbrev pub IsRoot : ℕ → Type 0
  IsRoot i = IsInteresting i × ((j : ℕ) → IsInteresting j → ¬ IsParent j i)

  pub interesting_at :
      (i : ℕ) (n : DagNode N T)
      → get_elem? dag i ≡ some n
      → IsInteresting i
      → interesting n.node n.content ≡ true
  interesting_at i n g h = let same : h.at ≡ n = ground (arith, h.here) in rw (same) at h.is
