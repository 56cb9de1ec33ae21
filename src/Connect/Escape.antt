-- ===== src/Connect/Escape.antt =====
-- What `unescape_batched_output` gives of text that was escaped (src/hg_connect.rs).
use git_cinnabar.Common.{
  ℕ, zero, suc, ◌+◌, ◌<◌, ◌≡◌, ◌≢◌, refl, ap, sym, ◌∙◌, true, [], ◌∷◌, ◌++◌, Bytes, Lacks,
  All-append, Option, none, some, ◌==◌, is_empty, length, length-append, take, drop, take-append,
  drop-append, append_assoc, append-nil, if◌then◌else◌, Option-cases, Bool-cases, inl, inr, arith,
}
use git_cinnabar.Connect.{
  Unescaped, replacement, replacement_of, unescape_loop, unescape_batched_output,
}
use git_cinnabar.Connect.Steps.{find_byte-append, find_byte-Lacks, loop-none, loop-last, loop-known}

-- How Mercurial escapes a character: `escapearg`.
abbrev pub letter_of : ℕ → Option ℕ
letter_of c =
    if c == b'='
    then some b'e'
    else if c == b';'
    then some b's'
    else if c == b','
    then some b'o'
    else if c == b':'
    then some b'c'
    else none

abbrev escape_onto : Option ℕ → ℕ → Bytes → Bytes
escape_onto none c rest = c ∷ rest
escape_onto (some l) c rest = b':' ∷ (l ∷ rest)

unfoldable pub escape : Bytes → Bytes
escape [] = []
escape (c ∷ s) = escape_onto (letter_of c) c (escape s)

letter_of-replacement : (c l : ℕ) → letter_of c ≡ some l → replacement_of l ≡ some c
letter_of-replacement c l h = ground arith

letter_of-none : (c : ℕ) → letter_of c ≡ none → c ≢ b':'
letter_of-none c h = ground arith

replacement-letter : (l : ℕ) (rest : Bytes) → replacement (b':' ∷ (l ∷ rest)) ≡ replacement_of l
unfolding replacement
replacement-letter l rest = refl

escape-plain : (c : ℕ) (s : Bytes) → letter_of c ≡ none → escape (c ∷ s) ≡ c ∷ escape s
unfolding escape
escape-plain c s e = rw (escape, e)

escape-letter :
    (c l : ℕ) (s : Bytes) → letter_of c ≡ some l → escape (c ∷ s) ≡ b':' ∷ (l ∷ escape s)
unfolding escape
escape-letter c l s e = rw (escape, e)

module _ (fuel : ℕ) (p : Bytes) (l : ℕ) (rest buf : Bytes) (lacks : Lacks b':' p) where
  abbrev pub before_letter : Bytes
  before_letter = p ++ b':' ∷ (l ∷ rest)

  pub cut_before : take (0 + length p) before_letter ≡ p
  cut_before = take-append (0 + length p) p (b':' ∷ (l ∷ rest)) (omega arith)

  pub cut_after : drop (0 + length p) before_letter ≡ b':' ∷ (l ∷ rest)
  cut_after = drop-append (0 + length p) p (b':' ∷ (l ∷ rest)) (omega arith)

  module _ (r : ℕ) (known : replacement_of l ≡ some r) where
    at_letter : replacement (drop (0 + length p) before_letter) ≡ some r
    at_letter = rw (cut_after, replacement-letter l rest) known

    -- A round that replaces an escaped character.
    pub round : unescape_loop (suc fuel) 0 before_letter buf ≡ (
        if is_empty rest
        then Unescaped.done ((buf ++ p) ++ r ∷ [])
        else unescape_loop fuel 0 rest ((buf ++ p) ++ r ∷ []))
    round = elim (Bool-cases (is_empty rest)) [
      | inl e ↦
          loop-last fuel 0 before_letter buf (omega arith) (length p)
            (find_byte-append b':' p (l ∷ rest) lacks) r at_letter (rw (cut_after) e)
          ∙ rw (cut_before, e) refl
      | inr e ↦
          loop-known fuel 0 before_letter buf (omega arith) (length p)
            (find_byte-append b':' p (l ∷ rest) lacks) r at_letter (rw (cut_after) e)
          ∙ rw (cut_before, cut_after, e) refl
    ]

escape-is_empty : (s : Bytes) → is_empty (escape s) ≡ true → s ≡ []
escape-is_empty [] h = refl
escape-is_empty (c ∷ s) h = elim (Option-cases (letter_of c)) [
  | inl e ↦ cc (rw (escape-plain c s e) at h)
  | inr (l, e) ↦ cc (rw (escape-letter c l s e) at h)
]

loop-escape :
    (s p buf : Bytes) (fuel : ℕ)
    → Lacks b':' p
    → length (p ++ escape s) < fuel
    → unescape_loop fuel 0 (p ++ escape s) buf ≡ Unescaped.done (buf ++ (p ++ s))
loop-escape s p buf zero lacks h = absurd (omega arith)
loop-escape [] p buf (suc fuel) lacks h =
    unfold escape in
    rw (append-nil p) (loop-none fuel 0 p buf (omega arith) (find_byte-Lacks b':' p lacks))
loop-escape (c ∷ s) p buf (suc fuel) lacks h = elim (Option-cases (letter_of c)) [
  | inl e ↦
      let same : p ++ escape (c ∷ s) ≡ (p ++ c ∷ []) ++ escape s =
        ap (λ t. p ++ t) (escape-plain c s e) ∙ sym (append_assoc p (c ∷ []) (escape s)) in
      let longer =
        loop-escape s (p ++ c ∷ []) buf (suc fuel)
          (All-append _ p (c ∷ []) lacks (letter_of-none c e, tt)) (rw (← same) h) in
      rw (same) longer ∙ ap (λ t. Unescaped.done (buf ++ t)) (append_assoc p (c ∷ []) s)
  | inr (l, e) ↦
      let same : p ++ escape (c ∷ s) ≡ p ++ b':' ∷ (l ∷ escape s) =
        ap (λ t. p ++ t) (escape-letter c l s e) in
      let step = round fuel p l (escape s) buf lacks c (letter_of-replacement c l e) in
      let size : length (p ++ escape (c ∷ s)) ≡ length p + suc (suc (length (escape s))) =
        ap length same ∙ length-append p (b':' ∷ (l ∷ escape s)) in
      elim (Bool-cases (is_empty (escape s))) [
        | inl z ↦
            let ended : ((buf ++ p) ++ c ∷ []) ≡ buf ++ (p ++ c ∷ s) =
              append_assoc buf p (c ∷ []) ∙ rw (escape-is_empty s z) refl in
            ap (λ t. unescape_loop (suc fuel) 0 t buf) same
            ∙ step
            ∙ rw (z) (ap Unescaped.done ended)
        | inr nz ↦
            let later = loop-escape s [] ((buf ++ p) ++ c ∷ []) fuel tt (omega arith) in
            let joined : ((buf ++ p) ++ c ∷ []) ++ s ≡ buf ++ (p ++ c ∷ s) =
              append_assoc (buf ++ p) (c ∷ []) s ∙ append_assoc buf p (c ∷ s) in
            ap (λ t. unescape_loop (suc fuel) 0 t buf) same
            ∙ step
            ∙ rw (nz) (later ∙ ap Unescaped.done joined)
      ]
]

-- Text that was escaped is given back as it was.
pub unescape_batched_output-escape :
    (s : Bytes) → unescape_batched_output (escape s) ≡ Unescaped.done s
unfolding unescape_batched_output
unescape_batched_output-escape s = loop-escape s [] [] (suc (length (escape s))) tt (omega arith)
