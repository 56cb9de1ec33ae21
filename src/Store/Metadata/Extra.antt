-- ===== src/Store/Metadata/Extra.antt =====
-- src/store.rs: `ChangesetExtra`. The `BTreeMap` is a list of keys and values in the order of the
-- keys; `none` is a panic.
pub mod Laws
pub mod RoundTrip
use git_cinnabar.Common.{
  ℕ, Bool, true, false, List, [], ◌∷◌, ◌++◌, Bytes, Option, none, some, ◌>>=◌, if◌then◌else◌,
  is_empty, bytes_eq, cmp, Ordering,
}
use git_cinnabar.Util.{split, splitn_exact_2}

abbrev pub ChangesetExtra : Type 0
ChangesetExtra = List (Bytes × Bytes)

abbrev pub new : ChangesetExtra
new = []

unfoldable pub get : Bytes → ChangesetExtra → Option Bytes
get name [] = none
get name ((k, v) ∷ rest) = let later = get name rest in if bytes_eq k name then some v else later

unfoldable pub unset : Bytes → ChangesetExtra → ChangesetExtra
unset name [] = []
unset name ((k, v) ∷ rest) =
    let later = unset name rest in if bytes_eq k name then rest else (k, v) ∷ later

unfoldable pub set : Bytes → Bytes → ChangesetExtra → ChangesetExtra
set name value [] = (name, value) ∷ []
set name value ((k, v) ∷ rest) =
    let later = set name value rest in
    elim (cmp name k) [
      | Ordering.lt ↦ (name, value) ∷ ((k, v) ∷ rest)
      | Ordering.eq ↦ (k, value) ∷ rest
      | Ordering.gt ↦ (k, v) ∷ later
    ]

-- The items of `from` are put into the map one after the other.
unfoldable pub collect : List Bytes → ChangesetExtra → Option ChangesetExtra
unfolding set splitn_exact_2
collect [] e = some e
collect (a ∷ rest) e = splitn_exact_2 b':' a >>= λ kv. collect rest (set kv.0 kv.1 e)

unfoldable pub from : Bytes → Option ChangesetExtra
unfolding collect split
from [] = some new
from (c ∷ buf) = collect (split 0 (c ∷ buf)) new

unfoldable pub dump : ChangesetExtra → Bytes
dump [] = []
dump ((k, v) ∷ []) = k ++ b':' ∷ v
dump ((k, v) ∷ (next ∷ rest)) = (k ++ b':' ∷ v) ++ 0 ∷ dump (next ∷ rest)

unfoldable pub dump_into : ChangesetExtra → Bytes → Bytes
unfolding dump
dump_into e buf = buf ++ dump e
