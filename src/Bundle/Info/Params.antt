-- ===== src/Bundle/Info/Params.antt =====
-- The parameters of a part: collecting them, and reading them back (src/hg_bundle.rs).
use git_cinnabar.Common.{
  ℕ, ◌≡◌, ◌≢◌, refl, sym, ◌∙◌, Bool, true, false, List, [], ◌∷◌, ◌++◌, Bytes, All, Option, some,
  ◌>>=◌, ◌>>◌, guard, >>=-eq-some, ltb, length, bytes_eq, bytes_eq_iff, append_assoc, append-nil,
  All-append, Bool-cases, inl, inr,
}
use git_cinnabar.Bundle.Chunk.{read_exactly-append}
use git_cinnabar.Bundle.Info.{
  Unicode, IsAscii, insert, collect, read_u8, read_lengths, write_lengths, write_params,
  read_exactly_to_string, read_params,
}

-- A name that is not among the parameters.
abbrev pub Fresh : Bytes → List (Bytes × Bytes) → Type 0
Fresh name = All (λ (p : Bytes × Bytes). p.0 ≢ name)

-- No name is there twice.
abbrev pub IsIndexMap : List (Bytes × Bytes) → Type 0
IsIndexMap [] = Unit
IsIndexMap ((n, v) ∷ params) = All (λ (p : Bytes × Bytes). n ≢ p.0) params × IsIndexMap params

bytes_eq-ne : (a b : Bytes) → a ≢ b → bytes_eq a b ≡ false
bytes_eq-ne a b ne = elim (Bool-cases (bytes_eq a b)) [
  | inl same ↦ absurd (ne ((bytes_eq_iff a b).0 same))
  | inr other ↦ other
]

insert-Fresh :
    (name value : Bytes) (params : List (Bytes × Bytes))
    → Fresh name params
    → insert name value params ≡ params ++ (name, value) ∷ []
unfolding insert
insert-Fresh name value [] h = refl
insert-Fresh name value ((n, v) ∷ params) (h, hs) =
    rw (bytes_eq-ne n name h, insert-Fresh name value params hs)

-- Each of the first parameters has another name than those behind it.
AllFresh : List (Bytes × Bytes) → List (Bytes × Bytes) → Type 0
AllFresh params [] = Unit
AllFresh params ((n, v) ∷ rest) = Fresh n params × AllFresh params rest

AllFresh-snoc :
    (params rest : List (Bytes × Bytes)) (name value : Bytes)
    → AllFresh params rest
    → All (λ (p : Bytes × Bytes). name ≢ p.0) rest
    → AllFresh (params ++ (name, value) ∷ []) rest
unfolding AllFresh
AllFresh-snoc params [] name value h k = tt
AllFresh-snoc params ((n, v) ∷ rest) name value (h, hs) (k, ks) = (
  All-append (λ (p : Bytes × Bytes). p.0 ≢ n) params ((name, value) ∷ []) h (k, tt),
  AllFresh-snoc params rest name value hs ks,
)

collect-AllFresh :
    (params rest : List (Bytes × Bytes))
    → AllFresh params rest
    → IsIndexMap rest
    → collect params rest ≡ params ++ rest
unfolding AllFresh collect
collect-AllFresh params [] h k = sym (append-nil params)
collect-AllFresh params ((n, v) ∷ rest) (h, hs) (k, ks) = rw (insert-Fresh n v params h) (
    collect-AllFresh (params ++ (n, v) ∷ []) rest (AllFresh-snoc params rest n v hs k) ks
    ∙ append_assoc params ((n, v) ∷ []) rest)

AllFresh-nil : (rest : List (Bytes × Bytes)) → AllFresh [] rest
unfolding AllFresh
AllFresh-nil [] = tt
AllFresh-nil ((n, v) ∷ rest) = (tt, AllFresh-nil rest)

pub collect-IsIndexMap :
    (params : List (Bytes × Bytes)) → IsIndexMap params → collect [] params ≡ params
collect-IsIndexMap params h = collect-AllFresh [] params (AllFresh-nil params) h

abbrev pub AsciiParams : List (Bytes × Bytes) → Type 0
AsciiParams = All (λ (p : Bytes × Bytes). IsAscii p.0 × IsAscii p.1)

abbrev pub lengths_of : List (Bytes × Bytes) → List (ℕ × ℕ)
lengths_of [] = []
lengths_of ((n, v) ∷ params) = (length n, length v) ∷ lengths_of params

-- A passed assertion, and what comes behind it.
pub guard-then :
    (b : Bool) (k : Option Bytes) {text : Bytes}
    → (guard b >> k) ≡ some text
    → (b ≡ true) × (k ≡ some text)
guard-then true k h = (refl, h)
guard-then false k h = cc

some-injective : {a b : Bytes} → some a ≡ some b → a ≡ b
some-injective h = cc

write_lengths-nil : (text : Bytes) → write_lengths [] ≡ some text → text ≡ []
unfolding write_lengths
write_lengths-nil text h = some-injective (sym h)

write_lengths-cons :
    (n v : Bytes) (params : List (Bytes × Bytes)) (text : Bytes)
    → write_lengths ((n, v) ∷ params) ≡ some text
    → (rest : Bytes) × (write_lengths params ≡ some rest) × (text ≡ length n ∷ length v ∷ rest)
unfolding write_lengths
write_lengths-cons n v params text h =
    let last = write_lengths params >>= λ rest. some (length n ∷ length v ∷ rest) in
    let (_, h1) = guard-then (ltb (length n) 256) (guard (ltb (length v) 256) >> last) h in
    let (_, h2) = guard-then (ltb (length v) 256) last h1 in
    let (rest, e, h3) = >>=-eq-some (write_lengths params) _ h2 in
    (rest, e, sym (some-injective h3))

pub read_lengths-write_lengths :
    (params : List (Bytes × Bytes)) (text rest : Bytes)
    → write_lengths params ≡ some text
    → read_lengths (length params) (text ++ rest) ≡ some (lengths_of params, rest)
unfolding read_lengths read_u8
read_lengths-write_lengths [] text rest h = rw (write_lengths-nil text h)
read_lengths-write_lengths ((n, v) ∷ params) text rest h =
    let (later, e, d) = write_lengths-cons n v params text h in
    rw (d, read_lengths-write_lengths params later rest e)

pub read_string :
    (unicode : Unicode) (s rest : Bytes)
    → IsAscii s
    → read_exactly_to_string unicode (length s) (s ++ rest) ≡ some (s, rest)
unfolding read_exactly_to_string
read_string unicode s rest h = rw (read_exactly-append s rest, unicode.utf8_ascii s h)

pub read_params-write_params :
    (unicode : Unicode) (params : List (Bytes × Bytes)) (rest : Bytes)
    → AsciiParams params
    → read_params unicode (lengths_of params) (write_params params ++ rest) ≡ some (params, rest)
unfolding read_params write_params
read_params-write_params unicode [] rest h = refl
read_params-write_params unicode ((n, v) ∷ params) rest ((hn, hv), hs) = rw (
  append_assoc n (v ++ write_params params) rest,
  read_string unicode n ((v ++ write_params params) ++ rest) hn,
  append_assoc v (write_params params) rest,
  read_string unicode v (write_params params ++ rest) hv,
  read_params-write_params unicode params rest hs,
)
