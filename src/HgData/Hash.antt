-- ===== src/HgData/Hash.antt =====
-- src/hg_data.rs: the hash of a Mercurial object, and the search for the parents of a file that
-- its hash was made with. SHA-1 is a parameter.
use git_cinnabar.Common.{
  ◌≡◌, ◌≢◌, Bool, List, [], ◌∷◌, ◌++◌, Bytes, Option, none, some, if◌then◌else◌, cmp, cmp-eq,
  cmp-flip, Ordering, inl, inr, bytes_eq, bytes_eq_iff, All, Bool-cases, Option-cases, some-eq,
  arith, ap, refl, ◌⊎◌, ◌↔◌, ◌∙◌,
}
use git_cinnabar.Oid.{Oid, null_oid}

unwrap_or_null : Option Oid → Bytes
unwrap_or_null none = null_oid.raw
unwrap_or_null (some o) = o.raw

-- `parents.sort()`, of two.
sort_two : Bytes → Bytes → Bytes × Bytes
sort_two a b = elim (cmp a b) [ Ordering.gt ↦ (b, a) | _ ↦ (a, b) ]

sort_two_comm : (a b : Bytes) → sort_two a b ≡ sort_two b a
unfolding sort_two
sort_two_comm a b = ground (arith, cmp-flip a b, cmp-eq a b)

-- The pairs of parents that are tried, in order.
abbrev pub candidates : Option Oid → Option Oid → List (Option Oid × Option Oid)
candidates parent1 parent2 =
    (parent1, parent2)
    ∷ (parent1, none)
    ∷ (parent2, none)
    ∷ (parent1, parent1)
    ∷ (parent2, parent2)
    ∷ (none, none)
    ∷ []

-- One of the parents that were given, or none.
abbrev pub IsGiven : Option Oid → Option Oid → Option Oid → Type 0
IsGiven parent1 parent2 x = (x ≡ none) ⊎ ((x ≡ parent1) ⊎ (x ≡ parent2))

module _ (sha1 : Bytes → Oid) where
  unfoldable pub hash_data : Option Oid → Option Oid → Bytes → Oid
  unfolding unwrap_or_null sort_two
  hash_data parent1 parent2 content =
      let parents = sort_two (unwrap_or_null parent1) (unwrap_or_null parent2) in
      sha1 (parents.0 ++ (parents.1 ++ content))

  -- The hash of a file does not depend on the order of its parents.
  pub hash_data_comm :
      (p q : Option Oid) (content : Bytes) → hash_data p q content ≡ hash_data q p content
  unfolding hash_data
  hash_data_comm p q content =
      let a = unwrap_or_null p in
      let b = unwrap_or_null q in
      ap (λ (s : Bytes × Bytes). sha1 (s.0 ++ (s.1 ++ content))) (sort_two_comm a b)

  matches : Oid → Bytes → Option Oid × Option Oid → Bool
  matches node content pair = bytes_eq (hash_data pair.0 pair.1 content).raw node.raw

  first_match : Oid → Bytes → List (Option Oid × Option Oid) → Option (Option Oid × Option Oid)
  first_match node content [] = none
  first_match node content (pair ∷ rest) =
      if matches node content pair then some pair else first_match node content rest

  unfoldable pub find_file_parents :
      Oid → Option Oid → Option Oid → Bytes → Option (Option Oid × Option Oid)
  unfolding first_match matches
  find_file_parents node parent1 parent2 content =
      first_match node content (candidates parent1 parent2)

  first_match-some :
      (node : Oid) (content : Bytes) (pairs : List (Option Oid × Option Oid)) (a b : Option Oid)
      → first_match node content pairs ≡ some (a, b)
      → hash_data a b content ≡ node
  unfolding first_match matches
  first_match-some node content [] a b h = cc
  first_match-some node content ((x, y) ∷ rest) a b h =
      elim (Bool-cases (bytes_eq (hash_data x y content).raw node.raw)) [
        | inl same ↦
            let e = (bytes_eq_iff (hash_data x y content).raw node.raw).0 same in
            let here : hash_data x y content ≡ node = ap (λ r. record { raw = r }) e in
            ground (arith)
        | inr other ↦ first_match-some node content rest a b (rw other at h)
      ]

  first_match-none :
      (node : Oid) (content : Bytes) (pairs : List (Option Oid × Option Oid))
      → first_match node content pairs ≡ none
      → All (λ (pair : Option Oid × Option Oid). hash_data pair.0 pair.1 content ≢ node) pairs
  unfolding first_match matches
  first_match-none node content [] h = tt
  first_match-none node content ((x, y) ∷ rest) h =
      elim (Bool-cases (bytes_eq (hash_data x y content).raw node.raw)) [
        | inl same ↦ cc (rw same at h)
        | inr other ↦ (
          λ e. cc ((bytes_eq_iff _ _).1 (ap (λ (o : Oid). o.raw) e), other),
          first_match-none node content rest (rw other at h),
        )
      ]

  -- What is found is one of the pairs.
  first_match-All :
      (node : Oid) (content : Bytes) (P : Option Oid × Option Oid → Type 0)
      (pairs : List (Option Oid × Option Oid)) (pair : Option Oid × Option Oid)
      → All P pairs
      → first_match node content pairs ≡ some pair
      → P pair
  unfolding first_match
  first_match-All node content P [] pair all h = cc
  first_match-All node content P (x ∷ rest) pair (p, ps) h =
      elim (Bool-cases (matches node content x)) [
        | inl same ↦ let e : x ≡ pair = some-eq (rw same at h) in rw (← e) p
        | inr other ↦ first_match-All node content P rest pair ps (rw other at h)
      ]

  -- The parents that are found hash, with the content, to the node.
  pub find_file_parents-some :
      (node : Oid) (parent1 parent2 : Option Oid) (content : Bytes) (a b : Option Oid)
      → find_file_parents node parent1 parent2 content ≡ some (a, b)
      → hash_data a b content ≡ node
  unfolding find_file_parents
  find_file_parents-some node parent1 parent2 content =
      first_match-some node content (candidates parent1 parent2)

  candidates-IsGiven :
      (parent1 parent2 : Option Oid)
      → All
          (λ (pair : Option Oid × Option Oid).
            IsGiven parent1 parent2 pair.0 × IsGiven parent1 parent2 pair.1)
          (candidates parent1 parent2)
  candidates-IsGiven p q =
      let none_given : IsGiven p q none = inl refl in
      let first : IsGiven p q p = inr (inl refl) in
      let second : IsGiven p q q = inr (inr refl) in
      (
        (first, second),
        (
          (first, none_given),
          (
            (second, none_given),
            ((first, first), ((second, second), ((none_given, none_given), tt))),
          ),
        ),
      )

  -- Where no candidate hashes to the node, no pair of given parents does, in either order.
  given-all :
      (node : Oid) (p q x y : Option Oid) (content : Bytes)
      → All
          (λ (pair : Option Oid × Option Oid). hash_data pair.0 pair.1 content ≢ node)
          (candidates p q)
      → IsGiven p q x
      → IsGiven p q y
      → hash_data x y content ≢ node
  given-all node p q x y content (pq, (pn, (qn, (pp, (qq, (nn, _)))))) gx gy = elim gx [
    | inl a ↦ elim gy [
      | inl b ↦ rw (a, b) nn
      | inr (inl b) ↦ rw (a, b) (swapped p none pn)
      | inr (inr b) ↦ rw (a, b) (swapped q none qn)
    ]
    | inr (inl a) ↦ elim gy [
      | inl b ↦ rw (a, b) pn
      | inr (inl b) ↦ rw (a, b) pp
      | inr (inr b) ↦ rw (a, b) pq
    ]
    | inr (inr a) ↦ elim gy [
      | inl b ↦ rw (a, b) qn
      | inr (inl b) ↦ rw (a, b) (swapped p q pq)
      | inr (inr b) ↦ rw (a, b) qq
    ]
  ]
    where
      swapped : (a b : Option Oid) → hash_data a b content ≢ node → hash_data b a content ≢ node
      swapped a b ne e = ne (hash_data_comm a b content ∙ e)

  -- Nothing is found exactly if no pair hashes, with the content, to the node, of all that can be made
  -- of the parents that were given and of no parent, the same one twice included, in either order.
  pub find_file_parents-none :
      (node : Oid) (parent1 parent2 : Option Oid) (content : Bytes)
      → (find_file_parents node parent1 parent2 content ≡ none) ↔ (
          (x y : Option Oid)
          → IsGiven parent1 parent2 x
          → IsGiven parent1 parent2 y
          → hash_data x y content ≢ node)
  unfolding find_file_parents
  find_file_parents-none node p q content = (
    λ h x y. given-all node p q x y content (first_match-none node content (candidates p q) h),
    λ ne. elim (Option-cases (first_match node content (candidates p q))) [
      | inl e ↦ e
      | inr (pair, e) ↦
          let (gx, gy) =
            first_match-All node content
              (λ (pair : Option Oid × Option Oid). IsGiven p q pair.0 × IsGiven p q pair.1)
              (candidates p q) pair (candidates-IsGiven p q) e in
          absurd (
            ne pair.0 pair.1 gx gy (first_match-some node content (candidates p q) pair.0 pair.1 e))
    ],
  )
