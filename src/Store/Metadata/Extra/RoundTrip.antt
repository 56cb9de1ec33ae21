-- ===== src/Store/Metadata/Extra/RoundTrip.antt =====
-- The text of a `ChangesetExtra` (src/store.rs).
use git_cinnabar.Common.{
  ℕ, ◌≡◌, refl, ap, ◌∙◌, [], ◌∷◌, ◌++◌, map, Bytes, some, All, All-append, Lacks, cmp, cmp-flip,
  flip, Ordering, append-nil, append_assoc, arith,
}
use git_cinnabar.Util.{split, splitn_exact_2}
use git_cinnabar.Util.Splits.{join, split-join, split_once-append}
use git_cinnabar.Store.Metadata.Extra.{ChangesetExtra, new, set, collect, from, dump, dump_into}
use git_cinnabar.Store.Metadata.Extra.Laws.{Above, IsOrdered}

-- A key and a value that are told apart in a text.
abbrev pub IsItem : Bytes × Bytes → Type 0
IsItem e = Lacks b':' e.0 × Lacks 0 e.0 × Lacks 0 e.1

abbrev item : Bytes × Bytes → Bytes
item e = e.0 ++ b':' ∷ e.1

dump-join :
    (e : Bytes × Bytes) (rest : ChangesetExtra) → dump (e ∷ rest) ≡ join 0 (item e ∷ map item rest)
unfolding dump
dump-join e [] = refl
dump-join e (next ∷ rest) = ap (λ x. item e ++ 0 ∷ x) (dump-join next rest)

item-Lacks : (e : Bytes × Bytes) → IsItem e → Lacks 0 (item e)
item-Lacks (k, v) (_, hk, hv) = All-append _ k (b':' ∷ v) hk ((omega arith), hv)

items-Lacks : (es : ChangesetExtra) → All IsItem es → All (Lacks 0) (map item es)
items-Lacks [] h = tt
items-Lacks (e ∷ es) (h, hs) = (item-Lacks e h, items-Lacks es hs)

-- A key behind all others is put at the end.
set-last :
    (k v : Bytes) (acc : ChangesetExtra)
    → All (λ (x : Bytes × Bytes). cmp x.0 k ≡ Ordering.lt) acc
    → set k v acc ≡ acc ++ (k, v) ∷ []
unfolding set
set-last k v [] h = refl
set-last k v ((k', v') ∷ acc) (lt, h) =
    let gt : cmp k k' ≡ Ordering.gt = cmp-flip k' k ∙ ap flip lt in
    rw (set, gt) (ap (◌∷◌ (k', v')) (set-last k v acc h))

collect-items :
    (es acc : ChangesetExtra)
    → All IsItem es
    → IsOrdered es
    → All (λ (y : Bytes × Bytes). All (λ (x : Bytes × Bytes). cmp x.0 y.0 ≡ Ordering.lt) acc) es
    → collect (map item es) acc ≡ some (acc ++ es)
unfolding collect splitn_exact_2
collect-items [] acc i o b = rw (append-nil)
collect-items ((k, v) ∷ es) acc ((hk, _, _), i) (a, o) (b, bs) =
    let behind = All-both k v acc es a bs in
    rw (collect, split_once-append b':' k v hk, set-last k v acc b)
      (collect-items es (acc ++ (k, v) ∷ []) i o behind
        ∙ ap some (append_assoc acc ((k, v) ∷ []) es))
  where
    All-both :
        (k v : Bytes) (acc es : ChangesetExtra)
        → All (Above k) es
        → All (λ (y : Bytes × Bytes). All (λ (x : Bytes × Bytes). cmp x.0 y.0 ≡ Ordering.lt) acc) es
        → All
            (λ (y : Bytes × Bytes).
              All (λ (x : Bytes × Bytes). cmp x.0 y.0 ≡ Ordering.lt) (acc ++ (k, v) ∷ []))
            es
    All-both k v acc [] a b = tt
    All-both k v acc (y ∷ ys) (p, a) (q, b) =
        (All-append _ acc ((k, v) ∷ []) q (p, tt), All-both k v acc ys a b)

from-cons :
    (text : Bytes) (c : ℕ) (rest : Bytes) → text ≡ c ∷ rest → from text ≡ collect (split 0 text) new
unfolding from
from-cons text c rest e = rw (e)

dump-cons :
    (e : Bytes × Bytes) (es : ChangesetExtra)
    → (c : ℕ) × (rest : Bytes) × (dump (e ∷ es) ≡ c ∷ rest)
unfolding dump
dump-cons ([], v) [] = (_, _, refl)
dump-cons (c ∷ k, v) [] = (_, _, refl)
dump-cons ([], v) (y ∷ ys) = (_, _, refl)
dump-cons (c ∷ k, v) (y ∷ ys) = (_, _, refl)

above-nothing :
    (es : ChangesetExtra)
    → All (λ (y : Bytes × Bytes). All (λ (x : Bytes × Bytes). cmp x.0 y.0 ≡ Ordering.lt) []) es
above-nothing [] = tt
above-nothing (e ∷ es) = (tt, above-nothing es)

-- The text of an ordered map is read as that map, if no key holds a colon and neither a key nor a
-- value a zero byte.
pub from-dump_into :
    (e : ChangesetExtra) → IsOrdered e → All IsItem e → from (dump_into e []) ≡ some e
unfolding dump_into
from-dump_into [] o i = unfold from dump in refl
from-dump_into (e ∷ es) o i =
    let (c, rest, cons) = dump-cons e es in
    from-cons (dump (e ∷ es)) c rest cons
    ∙ rw (dump-join e es, split-join 0 (item e) (map item es) (items-Lacks (e ∷ es) i))
        (collect-items (e ∷ es) [] i o (above-nothing (e ∷ es)))
