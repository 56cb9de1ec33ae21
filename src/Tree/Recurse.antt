-- ===== src/Tree/Recurse.antt =====
-- src/tree_util.rs: `RecurseTreeIter`, the iterator that descends into the trees of a listing.
pub mod Listing
use mathlib.Core.Option
use git_cinnabar.Common.{
  ℕ, zero, suc, List, [], ◌∷◌, ◌++◌, Bytes, Option, none, some, ◌⊎◌, inl, inr, length, take,
}
use git_cinnabar.Tree.{WithPath, with_path}

-- The top of the stack is the head of the list. An iterator is the list of what it has left.
pub record RecurseTreeIter (T : Type 0) : Type 0 where
  pub prefix : Bytes
  pub stack : List (List (WithPath T) × ℕ)

-- What one round of the loop in `next` does.
pub data Round (T V : Type 0) : Type 0 where
  finished : Round T V
  emitted : WithPath V → RecurseTreeIter T → Round T V
  again : RecurseTreeIter T → Round T V

abbrev pub new : {T : Type 0} → List (WithPath T) → RecurseTreeIter T
new iter = record { prefix = []; stack = (iter, 0) ∷ [] }

-- `maybe_recurse` reads the tree of an entry, or gives its value.
module _ {T V : Type 0} (maybe_recurse : T → List (WithPath T) ⊎ V) where
  enter : WithPath T → List (WithPath T) → ℕ → Bytes → List (List (WithPath T) × ℕ) → Round T V
  enter w ws prefix_len prefix below = elim (maybe_recurse w.inner) [
    | inl recursed ↦ again (record {
      prefix = prefix ++ (w.path ++ b'/' ∷ []);
      stack = (recursed, length prefix) ∷ (ws, prefix_len) ∷ below;
    })
    | inr entry ↦
        emitted (with_path (prefix ++ w.path) entry)
          (record { prefix = prefix; stack = (ws, prefix_len) ∷ below })
  ]

  step_stack : Bytes → List (List (WithPath T) × ℕ) → Round T V
  step_stack prefix [] = finished
  step_stack prefix (([], prefix_len) ∷ below) =
      again (record { prefix = take prefix_len prefix; stack = below })
  step_stack prefix ((w ∷ ws, prefix_len) ∷ below) = enter w ws prefix_len prefix below

  unfoldable pub step : RecurseTreeIter T → Round T V
  unfolding step_stack enter
  step s = step_stack s.prefix s.stack

  after_round :
      (RecurseTreeIter T → Option (List (WithPath V))) → Round T V → Option (List (WithPath V))
  after_round rest finished = some []
  after_round rest (emitted w s) = Option.map (◌∷◌ w) (rest s)
  after_round rest (again s) = rest s

  -- All that the iterator returns, in at most `fuel` rounds; `none` if these are too few.
  unfoldable pub run : ℕ → RecurseTreeIter T → Option (List (WithPath V))
  unfolding after_round
  run zero s = none
  run (suc fuel) s = after_round (run fuel) (step s)
