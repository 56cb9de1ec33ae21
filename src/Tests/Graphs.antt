-- ===== src/Tests/Graphs.antt =====
-- Graphs of changesets, on the graph of the repository's own test.
use git_cinnabar.Common.{
  ℕ, ◌≡◌, ◌↔◌, arith, refl, List, [], ◌∷◌, Option, none, some, Bool, true, All, ◌++◌, reverse, not,
  ==_iff, ◌>>=◌, ◌==◌, leb, codes,
}
use git_cinnabar.Store.Dag.{
  DagNodeId, DagNode, Dag, new, add, lookup, item, parent_offsets, enumerate, heads, roots,
  traverse_parents, traverse_children,
}
use git_cinnabar.Store.Dag.Selects.{Selects}
use git_cinnabar.Store.Dag.Sorted.{Distinct}
use git_cinnabar.Store.Dag.Valid.{IsAt, IsValid, new-IsValid}
use git_cinnabar.Store.Dag.Add.{add-IsValid}
use git_cinnabar.Store.Dag.Grow.{add-grows}
use git_cinnabar.Store.Dag.Marks.{In}
use git_cinnabar.Store.Dag.Up.{Ancestor}
use git_cinnabar.Store.Dag.Parents.{traverse_parents-Selects}
use git_cinnabar.Store.Dag.Down.{Descendant}
use git_cinnabar.Store.Dag.Children.{traverse_children-Selects}
use git_cinnabar.Store.Dag.Ends.{IsHead, IsRoot}
use git_cinnabar.Store.Dag.Heads.{heads-Selects}
use git_cinnabar.Store.Dag.Roots.{roots-Selects}

abbrev names : List (ℕ × Unit {0}) → List ℕ
names [] = []
names (p ∷ ps) = p.0 ∷ names ps

named : Option (List (ℕ × Unit {0})) → Option (List ℕ)
named none = none
named (some ps) = some (names ps)

add_all : List (ℕ × List ℕ) → Dag ℕ (Unit {0}) → Option (Dag ℕ (Unit {0}))
add_all [] d = some d
add_all ((n, ps) ∷ rest) d = add ◌==◌ n ps tt d >>= λ r. add_all rest r.1

abbrev entries : List (ℕ × List ℕ)
entries =
    (b'a', [])
    ∷ (b'b', codes "a")
    ∷ (b'c', codes "b")
    ∷ (b'd', codes "c")
    ∷ (b'e', [])
    ∷ (b'f', codes "e")
    ∷ (b'g', codes "f")
    ∷ (b'h', codes "dg")
    ∷ (b'i', codes "cg")
    ∷ (b'j', codes "cg")
    ∷ []

parents_of_j :
    (add_all entries new >>= λ d. named (traverse_parents ◌==◌ (codes "j") (λ n _. leb b'd' n) d))
    ≡ some (codes "jgfec")
unfolding add_all add traverse_parents named
parents_of_j = refl

children_of_a :
    (add_all entries new >>= λ d. named (traverse_children ◌==◌ (codes "ae") (λ n _. leb n b'g') d))
    ≡ some (codes "abcdefghij")
unfolding add_all add traverse_children named
children_of_a = refl

heads_to_g : (add_all entries new >>= λ d. named (heads (λ n _. leb n b'g') d)) ≡ some (codes "gd")
unfolding add_all add heads named
heads_to_g = refl

roots_from_h :
    (add_all entries new >>= λ d. named (roots (λ n _. leb b'h' n) d)) ≡ some (codes "hij")
unfolding add_all add roots named
roots_from_h = refl

-- A graph of a node, its child, and a child of both.
abbrev Graph : Type 0
Graph = Dag ℕ (Unit {0})

abbrev entry : ℕ → Option DagNodeId → Option DagNodeId → DagNode ℕ (Unit {0})
entry n p q = record { node = n; parent1 = p; parent2 = q; content = tt }

abbrev one : Graph
one = record { ids = (b'a', 1) ∷ []; dag = entry b'a' none none ∷ [] }

abbrev two : Graph
two = record { ids = (b'b', 2) ∷ one.ids; dag = one.dag ++ entry b'b' (some 1) none ∷ [] }

abbrev three : Graph
three = record { ids = (b'c', 3) ∷ two.ids; dag = two.dag ++ entry b'c' (some 1) (some 2) ∷ [] }

one-IsValid : IsValid ◌==◌ one
unfolding add
one-IsValid = add-IsValid ◌==◌ ==_iff b'a' [] tt new 1 one (new-IsValid ◌==◌) refl

two-IsValid : IsValid ◌==◌ two
unfolding add
two-IsValid = add-IsValid ◌==◌ ==_iff b'b' (b'a' ∷ []) tt one 2 two one-IsValid refl

three_added : add ◌==◌ b'c' (b'a' ∷ b'b' ∷ []) tt two ≡ some (3, three)
unfolding add
three_added = refl

three-IsValid : IsValid ◌==◌ three
three-IsValid =
    add-IsValid ◌==◌ ==_iff b'c' (b'a' ∷ b'b' ∷ []) tt two 3 three two-IsValid three_added

c_is_new : lookup ◌==◌ b'c' two.ids ≡ none
unfolding lookup
c_is_new = refl

add-grows_example :
    (d' : Graph) × (add ◌==◌ b'c' (b'a' ∷ b'b' ∷ []) tt two ≡ some (3, d'))
    × IsValid ◌==◌ d'
    × (x : DagNode ℕ (Unit {0})) × (d'.dag ≡ two.dag ++ x ∷ [])
    × (x.node ≡ b'c')
    × ((i : ℕ) → In i (parent_offsets x) ↔ IsAt two (b'a' ∷ b'b' ∷ []) i)
add-grows_example =
    add-grows ◌==◌ ==_iff b'c' (b'a' ∷ b'b' ∷ []) tt two two-IsValid (omega arith) c_is_new
      (omega arith)

abbrev always : ℕ → Unit {0} → Bool
always n u = true

abbrev not_c : ℕ → Unit {0} → Bool
not_c n u = not (n == b'c')

traverse_parents-Selects_example :
    (out : List (ℕ × Unit {0})) × (traverse_parents ◌==◌ (b'c' ∷ []) always three ≡ some out)
    × Selects
        (λ (e : ℕ × DagNode ℕ (Unit {0})). Ancestor three.dag always (IsAt three (b'c' ∷ [])) e.0)
        (λ (e : ℕ × DagNode ℕ (Unit {0})). item e.1)
        (reverse (enumerate 0 three.dag))
        out
traverse_parents-Selects_example =
    traverse_parents-Selects ◌==◌ three (b'c' ∷ []) always three-IsValid

start_known : All (λ n. (id : DagNodeId) × (lookup ◌==◌ n three.ids ≡ some id)) (b'b' ∷ [])
unfolding lookup
start_known = ((2, refl), tt)

start-Distinct : Distinct {A = ℕ} (b'b' ∷ [])
unfolding Distinct
start-Distinct = (λ m. m, tt)

traverse_children-Selects_example :
    (out : List (ℕ × Unit {0})) × (traverse_children ◌==◌ (b'b' ∷ []) always three ≡ some out)
    × Selects
        (λ (e : ℕ × DagNode ℕ (Unit {0})). Descendant three.dag always (IsAt three (b'b' ∷ [])) e.0)
        (λ (e : ℕ × DagNode ℕ (Unit {0})). item e.1)
        (enumerate 0 three.dag)
        out
traverse_children-Selects_example =
    traverse_children-Selects ◌==◌ three (b'b' ∷ []) always three-IsValid start_known start-Distinct

heads-Selects_example :
    (out : List (ℕ × Unit {0})) × (heads not_c three ≡ some out)
    × Selects
        (λ (e : ℕ × DagNode ℕ (Unit {0})). IsHead three.dag not_c e.0)
        (λ (e : ℕ × DagNode ℕ (Unit {0})). item e.1)
        (reverse (enumerate 0 three.dag))
        out
heads-Selects_example = heads-Selects ◌==◌ three not_c three-IsValid

roots-Selects_example :
    (out : List (ℕ × Unit {0})) × (roots not_c three ≡ some out)
    × Selects
        (λ (e : ℕ × DagNode ℕ (Unit {0})). IsRoot three.dag not_c e.0)
        (λ (e : ℕ × DagNode ℕ (Unit {0})). item e.1)
        (enumerate 0 three.dag)
        out
roots-Selects_example = roots-Selects ◌==◌ three not_c three-IsValid
