-- ===== src/Tree/Recurse/Listing.antt =====
-- The iterator returns the recursed listing, each path whole.
use mathlib.Core.Option
use git_cinnabar.Common.{
  ℕ, zero, suc, ◌≤◌, ◌≡◌, refl, List, [], ◌∷◌, ◌++◌, Bytes, Option, none, some, ◌⊎◌, inl, inr,
  length, take, take-append, append_assoc, append-nil, arith, ap, ◌∙◌, sym,
}
use git_cinnabar.Tree.Recurse.{
  RecurseTreeIter, Round, emitted, finished, again, after_round, enter, step, run, new,
}
use git_cinnabar.Tree.{WithPath, with_path}

abbrev prepend : {A : Type 0} → List A → Option (List A) → Option (List A)
prepend out none = none
prepend out (some rest) = some (out ++ rest)

prepend_nil : {A : Type 0} (o : Option (List A)) → o ≡ prepend [] o
prepend_nil none = refl
prepend_nil (some x) = refl

prepend-cons :
    {A : Type 0} (a : A) (out : List A) (o : Option (List A))
    → Option.map (◌∷◌ a) (prepend out o) ≡ prepend (a ∷ out) o
prepend-cons a out none = refl
prepend-cons a out (some x) = refl

map_mono :
    {A : Type 0} (a : A) (o o' : Option (List A))
    → ((out : List A) → o ≡ some out → o' ≡ some out)
    → {out : List A} → Option.map (◌∷◌ a) o ≡ some out
    → Option.map (◌∷◌ a) o' ≡ some out
map_mono a none o' keep e = cc
map_mono a (some x) o' keep e = rw (keep x refl) e

prepend-append :
    {A : Type 0} (xs ys : List A) (o : Option (List A))
    → prepend xs (prepend ys o) ≡ prepend (xs ++ ys) o
prepend-append xs ys none = refl
prepend-append xs ys (some x) = ap some (sym (append_assoc xs ys x))

module _ {T V : Type 0} (maybe_recurse : T → List (WithPath T) ⊎ V) where
  -- `IsListing prefix ws out`: recursing into the entries `ws` of the directory `prefix` gives
  -- `out`, directory by directory.
  pub data IsListing : Bytes → List (WithPath T) → List (WithPath V) → Type 0 where
    done : {prefix : Bytes} → IsListing prefix [] []
    value :
        {prefix : Bytes} {w : WithPath T} {ws : List (WithPath T)} {v : V} {out : List (WithPath V)}
        → maybe_recurse w.inner ≡ inr v
        → IsListing prefix ws out
        → IsListing prefix (w ∷ ws) (with_path (prefix ++ w.path) v ∷ out)
    tree :
        {prefix : Bytes} {w : WithPath T} {ws sub : List (WithPath T)}
        {inside out : List (WithPath V)}
        → maybe_recurse w.inner ≡ inl sub
        → IsListing (prefix ++ (w.path ++ b'/' ∷ [])) sub inside
        → IsListing prefix ws out
        → IsListing prefix (w ∷ ws) (inside ++ out)

  -- Once the entries on top of the stack are listed, the iterator goes on as if it had popped them.
  run-IsListing :
      {prefix : Bytes} {ws : List (WithPath T)} {out : List (WithPath V)}
      → IsListing prefix ws out
      → (k : ℕ) (below : List (List (WithPath T) × ℕ)) (m : ℕ)
      → (f : ℕ) × (run maybe_recurse f (record { prefix = prefix; stack = (ws, k) ∷ below })
          ≡ prepend out (run maybe_recurse m (record { prefix = take k prefix; stack = below })))
  unfolding run step
  run-IsListing done k below m = (suc m, prepend_nil _)
  run-IsListing (value {prefix} {w} {ws} e l) k below m =
      let (f, h) = run-IsListing l k below m in
      (suc f, rw (e, enter) (ap (Option.map (◌∷◌ _)) h ∙ prepend-cons _ _ _))
  run-IsListing (tree {prefix} {w} {ws} {sub} {inside} {out} e i l) k below m =
      let (f, h) = run-IsListing l k below m in
      let (g, h') = run-IsListing i (length prefix) ((ws, k) ∷ below) f in
      let back = take-append (length prefix) prefix (w.path ++ b'/' ∷ []) refl in
      (
        suc g,
        rw (e, enter)
            (h'
              ∙ ap
                  (λ p.
                    prepend inside
                      (run maybe_recurse f (record { prefix = p; stack = (ws, k) ∷ below })))
                  back
              ∙ ap (prepend inside) h
              ∙ prepend-append inside out _),
      )

  after_round_mono :
      (rest rest' : RecurseTreeIter T → Option (List (WithPath V)))
      → ((s : RecurseTreeIter T) (out : List (WithPath V)) → rest s ≡ some out → rest' s ≡ some out)
      → (r : Round T V) {out : List (WithPath V)} → after_round maybe_recurse rest r ≡ some out
      → after_round maybe_recurse rest' r ≡ some out
  unfolding after_round
  after_round_mono rest rest' keep finished e = e
  after_round_mono rest rest' keep (again s) {out} e = keep s out e
  after_round_mono rest rest' keep (emitted w s) e =
      map_mono w (rest s) (rest' s) (λ out. keep s out) e

  -- More fuel changes no result.
  run_mono :
      (f g : ℕ) (s : RecurseTreeIter T) {out : List (WithPath V)}
      → f ≤ g
      → run maybe_recurse f s ≡ some out
      → run maybe_recurse g s ≡ some out
  unfolding run
  run_mono zero g s h e = cc
  run_mono (suc f) zero s h e = absurd (omega arith)
  run_mono (suc f) (suc g) s h e =
      after_round_mono (run maybe_recurse f) (run maybe_recurse g)
        (λ s' out e'. run_mono f g s' (omega arith) e') (step maybe_recurse s) e

  -- Where recursing into the listing comes to an end with the list `out`, the iterator returns
  -- `out`, with every fuel from some number on.
  pub recursed_listing :
      {ws : List (WithPath T)} {out : List (WithPath V)}
      → IsListing [] ws out
      → (f : ℕ) × ((g : ℕ) → f ≤ g → run maybe_recurse g (new ws) ≡ some out)
  unfolding run step
  recursed_listing {ws} {out} l =
      let (f, h) = run-IsListing l 0 [] 1 in
      (f, λ g le. run_mono f g (new ws) le (h ∙ ap some (append-nil out)))
