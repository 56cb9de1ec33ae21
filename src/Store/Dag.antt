-- ===== src/Store/Dag.antt =====
-- src/store.rs: `Dag`. The map of ids is a list of pairs, and a `BitVec` a list of bits; `none` is a
-- panic. The nodes are compared by a parameter.
pub mod Selects
pub mod Marks
pub mod Sorted
pub mod Valid
pub mod Starts
pub mod Up
pub mod Parents
pub mod Down
pub mod Children
pub mod Ends
pub mod Heads
pub mod Roots
pub mod Add
pub mod Grow
use git_cinnabar.Common.{
  ℕ, zero, suc, ◌+◌, ◌-◌, ◌^◌, Bool, true, false, not, ◌||◌, List, [], ◌∷◌, ◌++◌, Option, none,
  some, ◌>>=◌, ◌>>◌, guard, ◌==◌, ltb, leb, if◌then◌else◌, is_empty, length, get_elem?, set, take,
  drop, reverse, min,
}

-- The number in a `DagNodeId`, which is not zero.
abbrev pub DagNodeId : Type 0
DagNodeId = ℕ

unfoldable pub try_from_offset : ℕ → Option DagNodeId
try_from_offset offset = if ltb (offset + 1) (2 ^ 32) then some (offset + 1) else none

abbrev pub to_offset : DagNodeId → ℕ
to_offset id = id - 1

pub record DagNode (N T : Type 0) : Type 0 where
  pub node : N
  pub parent1 : Option DagNodeId
  pub parent2 : Option DagNodeId
  pub content : T

pub record Dag (N T : Type 0) : Type 0 where
  pub ids : List (N × DagNodeId)
  pub dag : List (DagNode N T)

abbrev pub Bits : Type 0
Bits = List Bool

-- `BitVec::from_elem(_, false)`.
abbrev pub unset : ℕ → Bits
unset zero = []
unset (suc n) = false ∷ unset n

unfoldable pub set_bit : ℕ → Bits → Option Bits
set_bit i bits = if ltb i (length bits) then some (set bits i true) else none

unfoldable pub first : List DagNodeId → Option DagNodeId
first [] = none
first (id ∷ ids) = some id

unfoldable pub second : List DagNodeId → Option DagNodeId
unfolding first
second [] = none
second (id ∷ ids) = first ids

-- An ascending order; where the code sorts downwards it goes through the list from its end.
unfoldable pub insert : ℕ → List ℕ → List ℕ
insert x [] = x ∷ []
insert x (y ∷ ys) = let later = insert x ys in if leb x y then x ∷ (y ∷ ys) else y ∷ later

unfoldable pub sorted : List ℕ → List ℕ
unfolding insert
sorted [] = []
sorted (x ∷ xs) = insert x (sorted xs)

abbrev pub last_or : ℕ → List ℕ → ℕ
last_or d [] = d
last_or d (x ∷ xs) = last_or x xs

abbrev pub head_or : ℕ → List ℕ → ℕ
head_or d [] = d
head_or d (x ∷ xs) = x

abbrev pub offset_of : Option DagNodeId → List ℕ
offset_of none = []
offset_of (some id) = to_offset id ∷ []

-- The marks of a node's parents, and the smallest of them.
unfoldable pub mark : List ℕ → Bits → ℕ → Option (Bits × ℕ)
unfolding set_bit
mark [] parents smallest = some (parents, smallest)
mark (idx ∷ rest) parents smallest =
    set_bit idx parents >>= λ marked. mark rest marked (if ltb idx smallest then idx else smallest)

-- `any(|id| id.to_offset() >= first && seen[id.to_offset() - first])`.
unfoldable pub any_seen : ℕ → Bits → List ℕ → Option Bool
any_seen from seen [] = some false
any_seen from seen (p ∷ ps) =
    let rest = any_seen from seen ps in
    if leb from p
    then (get_elem? seen (p - from) >>= λ here. if here then some true else rest)
    else rest

abbrev pub is_next : ℕ → List DagNodeId → Bool
is_next idx [] = false
is_next idx (id ∷ ids) = idx == to_offset id

-- `filter(|id| seen[id.to_offset()])`.
unfoldable pub filter_seen : Bits → List ℕ → Option (List ℕ)
filter_seen seen [] = some []
filter_seen seen (p ∷ ps) = get_elem? seen p >>= λ here.
    filter_seen seen ps >>= λ rest. some (if here then p ∷ rest else rest)

unfoldable pub set_starts : List ℕ → Bits → Option Bits
unfolding set_bit
set_starts [] parents = some parents
set_starts (s ∷ rest) parents = set_bit s parents >>= set_starts rest

abbrev pub or_default : Option (List DagNodeId) → List DagNodeId
or_default none = []
or_default (some starts) = starts

abbrev pub limit_of : List ℕ → ℕ
limit_of [] = 0
limit_of (x ∷ xs) = last_or x xs + 1

abbrev pub first_of : ℕ → List DagNodeId → ℕ
first_of d [] = d
first_of d (id ∷ ids) = to_offset id

module _ {N : Type 0} (eq : N → N → Bool) where
  unfoldable pub lookup : N → List (N × DagNodeId) → Option DagNodeId
  lookup node [] = none
  lookup node ((k, id) ∷ rest) = if eq k node then some id else lookup node rest

module _ {N T : Type 0} where
  abbrev pub new : Dag N T
  new = record { ids = []; dag = [] }

  -- `[node.parent1, node.parent2].into_iter().flatten()`, as offsets.
  abbrev pub parent_offsets : DagNode N T → List ℕ
  parent_offsets n = elim n.parent1 [
    | none ↦ offset_of n.parent2
    | some id ↦ to_offset id ∷ offset_of n.parent2
  ]

  -- `iter().enumerate()`.
  abbrev pub enumerate : ℕ → List (DagNode N T) → List (ℕ × DagNode N T)
  enumerate idx [] = []
  enumerate idx (n ∷ ns) = (idx, n) ∷ enumerate (suc idx) ns

  abbrev pub item : DagNode N T → N × T
  item n = (n.node, n.content)

  unfoldable pub walk_up :
      (N → T → Bool) → List (ℕ × DagNode N T) → Bits → ℕ → Option (List (N × T))
  unfolding mark
  walk_up follow [] parents smallest = some []
  walk_up follow ((idx, n) ∷ below) parents smallest = get_elem? parents idx >>= λ here. elim here [
    | true ↦
        mark (if follow n.node n.content then parent_offsets n else []) parents smallest >>= λ s.
        walk_up follow below s.0 s.1 >>= λ rest. some (item n ∷ rest)
    | false ↦ elim (ltb idx smallest) [
      | true ↦ some []
      | false ↦ walk_up follow below parents smallest
    ]
  ]

  unfoldable pub walk_down :
      ℕ → (N → T → Bool) → List (ℕ × DagNode N T) → Bits → List DagNodeId → Option (List (N × T))
  unfolding any_seen set_bit
  walk_down from follow [] seen starts = some []
  walk_down from follow ((idx, n) ∷ later) seen starts =
      let is_start = is_next idx starts in
      let starts' = if is_start then drop 1 starts else starts in
      (if is_start then some true else any_seen from seen (parent_offsets n)) >>= λ here.
      elim here [
        | true ↦
            (if follow n.node n.content then set_bit (idx - from) seen else some seen) >>= λ seen'.
            walk_down from follow later seen' starts' >>= λ rest. some (item n ∷ rest)
        | false ↦ walk_down from follow later seen starts'
      ]

  unfoldable pub walk_heads : (N → T → Bool) → List (ℕ × DagNode N T) → Bits → Option (List (N × T))
  unfolding mark
  walk_heads interesting [] parents = some []
  walk_heads interesting ((idx, n) ∷ below) parents = elim (interesting n.node n.content) [
    | true ↦ mark (parent_offsets n) parents 0 >>= λ s. get_elem? s.0 idx >>= λ here.
        walk_heads interesting below s.0 >>= λ rest. some (if here then rest else item n ∷ rest)
    | false ↦ walk_heads interesting below parents
  ]

  unfoldable pub walk_roots : (N → T → Bool) → List (ℕ × DagNode N T) → Bits → Option (List (N × T))
  unfolding set_bit filter_seen
  walk_roots interesting [] seen = some []
  walk_roots interesting ((idx, n) ∷ later) seen = elim (interesting n.node n.content) [
    | true ↦ set_bit idx seen >>= λ seen'. filter_seen seen' (parent_offsets n) >>= λ ps.
        walk_roots interesting later seen' >>= λ rest.
        some (if length ps == 0 then item n ∷ rest else rest)
    | false ↦ walk_roots interesting later seen
  ]

  -- The closure of `heads` gives the node; the parents of what is not interesting are not marked.
  unfoldable pub heads : (N → T → Bool) → Dag N T → Option (List (N × T))
  unfolding walk_heads
  heads interesting d = walk_heads interesting (reverse (enumerate 0 d.dag)) (unset (length d.ids))

  unfoldable pub roots : (N → T → Bool) → Dag N T → Option (List (N × T))
  unfolding walk_roots
  roots interesting d = walk_roots interesting (enumerate 0 d.dag) (unset (length d.ids))

  module _ (eq : N → N → Bool) where
    -- An id that is out of bounds is a panic in the code; no graph that is made by `add` has one.
    unfoldable pub get : N → Dag N T → Option (DagNodeId × T)
    unfolding lookup
    get node d = do
      id ← lookup eq node d.ids
      n ← get_elem? d.dag (to_offset id)
      some (id, n.content)

    -- What the code does with the reference that `get_mut` gives.
    unfoldable pub modify : N → (T → T) → Dag N T → Dag N T
    unfolding lookup
    modify node change d = elim (lookup eq node d.ids) [
      | none ↦ d
      | some id ↦ elim (get_elem? d.dag (to_offset id)) [
        | none ↦ d
        | some n ↦ record d {
          dag = set d.dag (to_offset id) (record n { content = change n.content });
        }
      ]
    ]

    unfoldable pub get_ids : List N → Dag N T → List DagNodeId
    unfolding get
    get_ids [] d = []
    get_ids (p ∷ ps) d = elim (get p d) [
      | none ↦ get_ids ps d
      | some found ↦ found.0 ∷ get_ids ps d
    ]

    unfoldable pub add : N → List N → T → Dag N T → Option (DagNodeId × Dag N T)
    unfolding get_ids try_from_offset lookup first second
    add node parents content d =
        guard (leb (length parents) 2)
        >> (try_from_offset (length d.dag) >>= λ id. elim (lookup eq node d.ids) [
          | some _ ↦ none
          | none ↦ some (
            id,
            record {
              ids = (node, id) ∷ d.ids;
              dag =
                  d.dag
                  ++ record {
                    node = node;
                    parent1 = first (get_ids parents d);
                    parent2 = second (get_ids parents d);
                    content = content;
                  }
                    ∷ [];
            },
          )
        ])

    -- `filter_map(|n| self.ids.get(n).map(|x| x.to_offset()))`.
    unfoldable pub start_offsets : List N → Dag N T → List ℕ
    unfolding lookup
    start_offsets [] d = []
    start_offsets (n ∷ ns) d = elim (lookup eq n d.ids) [
      | none ↦ start_offsets ns d
      | some id ↦ to_offset id ∷ start_offsets ns d
    ]

    unfoldable pub traverse_parents : List N → (N → T → Bool) → Dag N T → Option (List (N × T))
    unfolding start_offsets sorted set_starts walk_up
    traverse_parents nodes follow d =
        let starts = sorted (start_offsets nodes d) in
        set_starts starts (unset (limit_of starts)) >>= λ parents.
        walk_up follow (reverse (enumerate 0 (take (limit_of starts) d.dag))) parents
          (head_or 0 starts)

    -- The ids of the starts; none of them if one is not in the graph.
    unfoldable pub start_ids : List N → Dag N T → Option (List DagNodeId)
    unfolding lookup
    start_ids [] d = some []
    start_ids (n ∷ ns) d = do id ← lookup eq n d.ids; rest ← start_ids ns d; some (id ∷ rest)

    unfoldable pub traverse_children : List N → (N → T → Bool) → Dag N T → Option (List (N × T))
    unfolding start_ids sorted walk_down
    traverse_children nodes follow d =
        let starts = sorted (or_default (start_ids nodes d)) in
        let from = first_of (length d.ids) starts in
        walk_down from follow (drop from (enumerate 0 d.dag)) (unset (length d.ids - from)) starts

  -- `Dag::iter`.
  abbrev pub items : List (DagNode N T) → List (N × T)
  items [] = []
  items (n ∷ ns) = item n ∷ items ns
