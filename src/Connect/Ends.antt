-- ===== src/Connect/Ends.antt =====
-- The loop of `unescape_batched_output` ends, but not always well (src/hg_connect.rs).
use git_cinnabar.Common.{
  ℕ, zero, suc, ◌+◌, ◌-◌, ◌<◌, ◌≡◌, ◌≢◌, ap, sym, ◌∙◌, false, [], ◌∷◌, ◌++◌, Bytes, Lacks, none,
  some, leb, leb→le, is_empty, length, length-drop, take, drop, drop-append, append_assoc,
  length-append, Option-cases, Bool-cases, inl, inr, arith,
}
use git_cinnabar.Connect.{
  Unescaped, find_byte, replacement, replacement_of, unescape_loop, unescape_batched_output,
}
use git_cinnabar.Connect.Steps.{
  find_byte-append, find_byte-some, replacement-some, loop-panics, loop-none, loop-unknown,
  loop-last, loop-known,
}

abbrev Ended : Unescaped → Type 0
Ended (Unescaped.done t) = Unit
Ended Unescaped.panics = Unit
Ended Unescaped.out_of_fuel = ⊥

loop-Ended :
    (fuel start : ℕ) (out buf : Bytes)
    → length out - start < fuel
    → Ended (unescape_loop fuel start out buf)
loop-Ended zero start out buf h = absurd (omega arith)
loop-Ended (suc fuel) start out buf h = elim (Bool-cases (leb start (length out))) [
  | inr e ↦ rw (loop-panics fuel start out buf e) tt
  | inl e ↦
      let le = leb→le start (length out) e in
      elim (Option-cases (find_byte b':' (drop start out))) [
        | inl n ↦ rw (loop-none fuel start out buf le n) tt
        | inr (colon, found) ↦
            let inside : colon < length out - start =
              omega
                (arith, find_byte-some b':' (drop start out) colon found, length-drop start out) in
            elim (Option-cases (replacement (drop (start + colon) out))) [
              | inl u ↦
                  rw (loop-unknown fuel start out buf le colon found u)
                    (loop-Ended fuel (start + colon + 1) out buf (omega arith))
              | inr (r, k) ↦ elim (Bool-cases (is_empty (drop 2 (drop (start + colon) out)))) [
                | inl z ↦ rw (loop-last fuel start out buf le colon found r k z) tt
                | inr nz ↦
                    let two = replacement-some (drop (start + colon) out) r k in
                    let left : length (drop 2 (drop (start + colon) out))
                        ≡ length out - (start + colon) - 2 =
                      length-drop 2 (drop (start + colon) out)
                      ∙ ap (λ n. n - 2) (length-drop (start + colon) out) in
                    rw (loop-known fuel start out buf le colon found r k nz) (
                      loop-Ended fuel start (drop 2 (drop (start + colon) out))
                        ((buf ++ take (start + colon) out) ++ r ∷ []) (omega arith))
              ]
            ]
      ]
]

-- Whatever the text, the loop ends, with a result or in a panic, within one round more than the text
-- has bytes.
pub unescape_batched_output-ends :
    (out : Bytes) → unescape_batched_output out ≢ Unescaped.out_of_fuel
unfolding unescape_batched_output
unescape_batched_output-ends out h =
    let ended : Ended (unescape_loop (suc (length out)) 0 out []) =
      loop-Ended (suc (length out)) 0 out [] (omega arith) in
    rw (h) at ended

module _ (p q rest : Bytes) (x y r : ℕ) (plain : Lacks b':' p) (plain_too : Lacks b':' q) where
  abbrev pub unknown : Bytes
  unknown = p ++ b':' ∷ (x ∷ (q ++ b':' ∷ (y ∷ rest)))

  behind : Bytes
  behind = x ∷ (q ++ b':' ∷ (y ∷ rest))

  length-unknown : length unknown ≡ length p + 4 + length q + length rest
  length-unknown =
      length-append p (b':' ∷ (x ∷ (q ++ b':' ∷ (y ∷ rest))))
      ∙ omega (arith, length-append q (b':' ∷ (y ∷ rest)))

  at_first : drop (0 + length p) unknown ≡ b':' ∷ behind
  unfolding behind
  at_first = drop-append (0 + length p) p (b':' ∷ behind) (omega arith)

  behind_first : drop (0 + length p + 1) unknown ≡ behind
  unfolding behind
  behind_first =
      ap (drop (0 + length p + 1)) (sym (append_assoc p (b':' ∷ []) behind))
      ∙ drop-append (0 + length p + 1) (p ++ b':' ∷ []) behind
          (omega (arith, length-append p (b':' ∷ [])))

  at_second : drop (0 + length p + 1 + suc (length q)) unknown ≡ b':' ∷ (y ∷ rest)
  at_second =
      ap (drop (0 + length p + 1 + suc (length q)))
        (sym (append_assoc p (b':' ∷ (x ∷ q)) (b':' ∷ (y ∷ rest))))
      ∙ drop-append (0 + length p + 1 + suc (length q)) (p ++ b':' ∷ (x ∷ q)) (b':' ∷ (y ∷ rest))
          (omega (arith, length-append p (b':' ∷ (x ∷ q))))

  replaced : replacement_of y ≡ some r → replacement (b':' ∷ (y ∷ rest)) ≡ some r
  unfolding replacement
  replaced escape = escape

  module _ (no_escape : replacement_of x ≡ none) (no_colon : x ≢ b':')
      (escape : replacement_of y ≡ some r) (more : is_empty rest ≡ false)
      (short : length rest < length p + 1) (f : ℕ) where
    unknown_first : replacement (b':' ∷ behind) ≡ none
    unfolding replacement behind
    unknown_first = no_escape

    first_round :
        unescape_loop (suc (suc (suc f))) 0 unknown []
        ≡ unescape_loop (suc (suc f)) (0 + length p + 1) unknown []
    first_round =
        loop-unknown (suc (suc f)) 0 unknown [] (omega arith) (length p)
          (find_byte-append b':' p (x ∷ (q ++ b':' ∷ (y ∷ rest))) plain)
          (rw (at_first) unknown_first)

    found_second : find_byte b':' (drop (0 + length p + 1) unknown) ≡ some (suc (length q))
    unfolding behind
    found_second =
        rw (behind_first) (find_byte-append b':' (x ∷ q) (y ∷ rest) (no_colon, plain_too))

    later_rounds : unescape_loop (suc (suc f)) (0 + length p + 1) unknown [] ≡ Unescaped.panics
    later_rounds =
        loop-known (suc f) (0 + length p + 1) unknown [] (omega (arith, length-unknown))
          (suc (length q)) found_second r (rw (at_second) (replaced escape)) (rw (at_second) more)
        ∙ rw (at_second) (loop-panics f (0 + length p + 1) rest _ (ground arith))

  -- A text panics that has a first colon before a byte that makes no escape with it and is no colon,
  -- then a colon that begins one of the four escapes, and behind this something, but no more bytes
  -- than stand before the first colon: the search for the next colon starts behind the end.
  pub unescape_batched_output-panics :
      replacement_of x ≡ none
      → x ≢ b':'
      → replacement_of y ≡ some r
      → is_empty rest ≡ false
      → length rest < length p + 1
      → unescape_batched_output unknown ≡ Unescaped.panics
  unfolding unescape_batched_output
  unescape_batched_output-panics no_escape no_colon escape more short =
      let f = length unknown - 2 in
      let fuel : suc (length unknown) ≡ suc (suc (suc f)) = omega (arith, length-unknown) in
      ap (λ n. unescape_loop n 0 unknown []) fuel
      ∙ first_round no_escape no_colon escape more short f
      ∙ later_rounds no_escape no_colon escape more short f
