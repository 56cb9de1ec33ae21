-- ===== src/Connect/Steps.antt =====
-- The rounds of the loop of `unescape_batched_output` (src/hg_connect.rs).
use git_cinnabar.Common.{
  ℕ, suc, ◌+◌, ◌≤◌, ◌<◌, ◌≡◌, refl, true, false, [], ◌∷◌, ◌++◌, Bytes, Lacks, none, some, leb,
  le→leb, is_empty, length, take, drop, Option-cases, inl, inr, arith,
}
use git_cinnabar.Connect.{Unescaped, find_byte, replacement, unescape_loop}

pub find_byte-Lacks : (b : ℕ) (p : Bytes) → Lacks b p → find_byte b p ≡ none
unfolding find_byte
find_byte-Lacks b [] h = refl
find_byte-Lacks b (c ∷ p) (h, hs) = ground (arith, find_byte-Lacks b p hs)

pub find_byte-append :
    (b : ℕ) (p rest : Bytes) → Lacks b p → find_byte b (p ++ b ∷ rest) ≡ some (length p)
unfolding find_byte
find_byte-append b [] rest h = ground arith
find_byte-append b (c ∷ p) rest (h, hs) = ground (arith, find_byte-append b p rest hs)

pub find_byte-some : (b : ℕ) (s : Bytes) (n : ℕ) → find_byte b s ≡ some n → n < length s
unfolding find_byte
find_byte-some b [] n h = cc
find_byte-some b (c ∷ s) n h = elim (Option-cases (find_byte b s)) [
  | inl e ↦ ground arith
  | inr (m, e) ↦ ground (arith, find_byte-some b s m e)
]

pub replacement-some : (s : Bytes) (r : ℕ) → replacement s ≡ some r → 2 ≤ length s
unfolding replacement
replacement-some [] r h = cc
replacement-some (c ∷ []) r h = cc
replacement-some (c ∷ (d ∷ s)) r h = omega arith

module _ (fuel start : ℕ) (out buf : Bytes) where
  pub loop-panics :
      leb start (length out) ≡ false → unescape_loop (suc fuel) start out buf ≡ Unescaped.panics
  unfolding unescape_loop
  loop-panics e = rw (unescape_loop, e)

  module _ (le : start ≤ length out) where
    pub loop-none :
        find_byte b':' (drop start out) ≡ none
        → unescape_loop (suc fuel) start out buf ≡ Unescaped.done (buf ++ out)
    unfolding unescape_loop
    loop-none e = rw (unescape_loop, le→leb start (length out) le, e)

    module _ (colon : ℕ) (found : find_byte b':' (drop start out) ≡ some colon) where
      pub loop-unknown :
          replacement (drop (start + colon) out) ≡ none
          → unescape_loop (suc fuel) start out buf ≡ unescape_loop fuel (start + colon + 1) out buf
      unfolding unescape_loop
      loop-unknown e = rw (unescape_loop, le→leb start (length out) le, found, e)

      module _ (r : ℕ) (known : replacement (drop (start + colon) out) ≡ some r) where
        pub loop-last :
            is_empty (drop 2 (drop (start + colon) out)) ≡ true
            → unescape_loop (suc fuel) start out buf
              ≡ Unescaped.done ((buf ++ take (start + colon) out) ++ r ∷ [])
        unfolding unescape_loop
        loop-last e = rw (unescape_loop, le→leb start (length out) le, found, known, e)

        pub loop-known :
            is_empty (drop 2 (drop (start + colon) out)) ≡ false
            → unescape_loop (suc fuel) start out buf
              ≡ unescape_loop fuel start
                  (drop 2 (drop (start + colon) out))
                  ((buf ++ take (start + colon) out) ++ r ∷ [])
        unfolding unescape_loop
        loop-known e = rw (unescape_loop, le→leb start (length out) le, found, known, e)
