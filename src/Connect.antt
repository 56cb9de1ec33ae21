-- ===== src/Connect.antt =====
-- src/hg_connect.rs: the output of batched commands, in which four characters are escaped.
pub mod Steps
pub mod Escape
pub mod Ends
use git_cinnabar.Common.{
  ℕ, zero, suc, ◌+◌, Bool, true, false, ◌&&◌, List, [], ◌∷◌, ◌++◌, Bytes, Option, none, some, ◌>>=◌,
  ◌==◌, leb, if◌then◌else◌, is_empty, length, take, drop,
}

-- What the loop comes to: its result, a panic, or fuel that was not enough.
pub data Unescaped : Type 0 where
  done : Bytes → Unescaped
  panics : Unescaped
  out_of_fuel : Unescaped

unfoldable pub find_byte : ℕ → Bytes → Option ℕ
find_byte b [] = none
find_byte b (c ∷ cs) =
    let later = find_byte b cs in if c == b then some 0 else (later >>= λ n. some (suc n))

abbrev pub replacement_of : ℕ → Option ℕ
replacement_of d =
    if d == b'e'
    then some b'='
    else if d == b's'
    then some b';'
    else if d == b'o'
    then some b','
    else if d == b'c'
    then some b':'
    else none

-- The `match` on `after.get(..2)`.
unfoldable pub replacement : Bytes → Option ℕ
replacement [] = none
replacement (c ∷ []) = none
replacement (c ∷ (d ∷ rest)) = if c == b':' then replacement_of d else none

-- The loop; `start` is not set back when `out` is cut.
unfoldable pub unescape_loop : ℕ → ℕ → Bytes → Bytes → Unescaped
unfolding find_byte replacement
unescape_loop zero start out buf = Unescaped.out_of_fuel
unescape_loop (suc fuel) start out buf = elim (leb start (length out)) [
  | false ↦ Unescaped.panics
  | true ↦ elim (find_byte b':' (drop start out)) [
    | none ↦ Unescaped.done (buf ++ out)
    | some colon ↦
        let before = take (start + colon) out in
        let after = drop (start + colon) out in
        elim (replacement after) [
          | none ↦ unescape_loop fuel (start + colon + 1) out buf
          | some replace ↦
              let buf' = (buf ++ before) ++ replace ∷ [] in
              elim (is_empty (drop 2 after)) [
                | true ↦ Unescaped.done buf'
                | false ↦ unescape_loop fuel start (drop 2 after) buf'
              ]
        ]
  ]
]

unfoldable pub unescape_batched_output : Bytes → Unescaped
unfolding unescape_loop
unescape_batched_output out = unescape_loop (suc (length out)) 0 out []
