-- ===== src/Store/Changeset/Adjust.antt =====
-- The zero bytes at the end of a changeset that are taken away until the hash is right
-- (src/store.rs, the end of `from_metadata_`).
use git_cinnabar.Common.{
  ℕ, zero, suc, ◌≤◌, ◌<◌, ◌≡◌, ◌≢◌, refl, ap, ◌∙◌, ◌⊎◌, inl, inr, true, false, [], ◌∷◌, ◌++◌, Bytes,
  Option, some, bytes_eq, append_assoc, append-nil, Bool-cases, ==_iff, ◌==◌, arith,
}
use git_cinnabar.Oid.{Oid}
use git_cinnabar.Store.Metadata.{pop}
use git_cinnabar.Store.Changeset.{last_byte, adjust}

abbrev pub zeros : ℕ → Bytes
zeros zero = []
zeros (suc n) = zeros n ++ 0 ∷ []

last_byte-append : (s : Bytes) (c : ℕ) → last_byte (s ++ c ∷ []) ≡ some c
last_byte-append [] c = refl
last_byte-append (x ∷ []) c = refl
last_byte-append (x ∷ (y ∷ s)) c = last_byte-append (y ∷ s) c

pop-append : (s : Bytes) (c : ℕ) → pop (s ++ c ∷ []) ≡ s
unfolding pop
pop-append [] c = refl
pop-append (x ∷ []) c = refl
pop-append (x ∷ (y ∷ s)) c = ap (◌∷◌ x) (pop-append (y ∷ s) c)

le-suc : (j n : ℕ) → j ≤ suc n → (j ≡ suc n) ⊎ (j ≤ n)
le-suc j n h = ground arith

module _ (hash : Bytes → Oid) (node : Oid) where
  adjust-nonzero :
      (fuel : ℕ) (s : Bytes) (c : ℕ)
      → last_byte s ≡ some c
      → c ≢ 0
      → adjust (suc fuel) (λ x. some (hash x)) node s ≡ some s
  unfolding adjust
  adjust-nonzero fuel s c h nonzero = elim (Bool-cases (c == 0)) [
    | inl e ↦ absurd (nonzero ((==_iff c 0).0 e))
    | inr e ↦ rw (h, e)
  ]

  adjust-found :
      (fuel : ℕ) (s : Bytes)
      → bytes_eq (hash (s ++ 0 ∷ [])).raw node.raw ≡ true
      → adjust (suc fuel) (λ x. some (hash x)) node (s ++ 0 ∷ []) ≡ some (s ++ 0 ∷ [])
  unfolding adjust
  adjust-found fuel s e = rw (last_byte-append s 0, e)

  adjust-next :
      (fuel : ℕ) (s : Bytes)
      → bytes_eq (hash (s ++ 0 ∷ [])).raw node.raw ≡ false
      → adjust (suc fuel) (λ x. some (hash x)) node (s ++ 0 ∷ [])
        ≡ adjust fuel (λ x. some (hash x)) node s
  unfolding adjust
  adjust-next fuel s e = rw (last_byte-append s 0, e, pop-append s 0)

  -- At most `n` zero bytes are left, `k` of them: with them the hash is the right one, unless none is
  -- left, and with more of them it is not.
  pub record IsAdjusted (base : Bytes) (n k : ℕ) : Type 0 where
    pub fewer : k ≤ n
    pub stops : (k ≡ 0) ⊎ (bytes_eq (hash (base ++ zeros k)).raw node.raw ≡ true)
    pub goes_on : (j : ℕ) → k < j → j ≤ n → bytes_eq (hash (base ++ zeros j)).raw node.raw ≡ false

  -- The loop ends within one round more than there are zero bytes, and leaves the most of them with
  -- which the hash is the one looked for, or none if there is no such number. The parents are known.
  pub adjust-zeros :
      (base : Bytes) (c n fuel : ℕ)
      → last_byte base ≡ some c
      → c ≢ 0
      → n < fuel
      → (k : ℕ) × (adjust fuel (λ x. some (hash x)) node (base ++ zeros n) ≡ some (base ++ zeros k))
        × IsAdjusted base n k
  adjust-zeros base c n zero h nonzero enough = absurd (omega arith)
  adjust-zeros base c zero (suc fuel) h nonzero enough = (
    0,
    rw (append-nil base) (adjust-nonzero fuel base c h nonzero),
    record {
      fewer = omega arith;
      stops = inl refl;
      goes_on = λ j above below. absurd (omega arith);
    },
  )
  adjust-zeros base c (suc n) (suc fuel) h nonzero enough =
      let assoc : (base ++ zeros n) ++ 0 ∷ [] ≡ base ++ zeros (suc n) =
        append_assoc base (zeros n) (0 ∷ []) in
      elim (Bool-cases (bytes_eq (hash (base ++ zeros (suc n))).raw node.raw)) [
        | inl e ↦ (
          suc n,
          rw (← assoc) (adjust-found fuel (base ++ zeros n) (rw (assoc) e)),
          record {
            fewer = omega arith;
            stops = inr e;
            goes_on = λ j above below. absurd (omega arith);
          },
        )
        | inr e ↦
            let (k, run, w) = adjust-zeros base c n fuel h nonzero (omega arith) in
            (
              k,
              rw (← assoc) (adjust-next fuel (base ++ zeros n) (rw (assoc) e) ∙ run),
              record {
                fewer = omega (arith, w.fewer);
                stops = w.stops;
                goes_on = λ j above below. elim (le-suc j n below) [
                  | inl same ↦ rw (same) e
                  | inr less ↦ w.goes_on j above less
                ];
              },
            )
      ]

-- A text that has the hash stays what it is.
pub adjust-same :
    (hash : Bytes → Option Oid) (node h : Oid) (fuel c : ℕ) (s : Bytes)
    → last_byte s ≡ some c
    → hash s ≡ some h
    → bytes_eq h.raw node.raw ≡ true
    → adjust (suc fuel) hash node s ≡ some s
unfolding adjust
adjust-same hash node h fuel c s last known e = elim (Bool-cases (c == 0)) [
  | inl z ↦ rw (last, z, known, e)
  | inr nz ↦ rw (last, nz)
]
