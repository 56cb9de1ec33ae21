-- ===== src/Bundle/Rev/Delta.antt =====
-- The delta that `write_chunk` chooses, and the text of its delta node (src/hg_bundle.rs).
use git_cinnabar.Common.{
  ◌≡◌, refl, Bool, true, false, [], ◌∷◌, Bytes, Option, none, some, ltb, if◌then◌else◌, Bool-cases,
  inl, inr, length, bytes_eq,
}
use git_cinnabar.Oid.{Oid, null_oid, is_null}
use git_cinnabar.Bundle.Rev.{or_else, shortest, parents, candidate, without_parents, delta_v2}

-- The text that a delta node stands for: nothing is the text of the null id.
unfoldable pub text : (Oid → Bytes) → Oid → Bytes
text f o = if is_null o then [] else f o

-- The previous object is one that was read, and not null.
unfoldable pub IsPrevious : (Oid → Bytes) → Option (Oid × Bytes) → Type 0
IsPrevious f none = Unit
IsPrevious f (some (o, t)) = (is_null o ≡ false) × (t ≡ f o) × (length o.raw ≡ 20)

module _ (create_chunk_data : Bytes → Bytes → Bytes) (f : Oid → Bytes) where
  unfoldable pub IsDiff : Bytes → Option Oid × Bytes → Type 0
  IsDiff raw_object d =
      (d.1 ≡ create_chunk_data (text f (or_else d.0 null_oid)) raw_object)
      × (length ((or_else d.0 null_oid).raw) ≡ 20)

  candidate-IsDiff :
      (previous : Option (Oid × Bytes)) (always_previous : Bool) (raw_object : Bytes) (p : Oid)
      → IsPrevious f previous
      → is_null p ≡ false
      → length p.raw ≡ 20
      → IsDiff raw_object (candidate create_chunk_data f previous always_previous raw_object p)
  unfolding IsDiff IsPrevious candidate text or_else
  candidate-IsDiff none always_previous raw_object p v n l = (rw (n), l)
  candidate-IsDiff (some (o, t)) true raw_object p (n, e, l) _ _ = (rw (n, e), l)
  candidate-IsDiff (some (o, t)) false raw_object p v n l = (rw (n), l)

  without_parents-IsDiff :
      (previous : Option (Oid × Bytes)) (raw_object : Bytes)
      → IsPrevious f previous
      → IsDiff raw_object (without_parents create_chunk_data f previous raw_object)
  unfolding IsDiff IsPrevious without_parents text or_else is_null
  without_parents-IsDiff none raw_object v = (refl, refl)
  without_parents-IsDiff (some (o, t)) raw_object (n, e, l) = (rw (n, e), l)

  shortest-IsDiff :
      (raw_object : Bytes) (a b : Option Oid × Bytes)
      → IsDiff raw_object a
      → IsDiff raw_object b
      → IsDiff raw_object (shortest a (b ∷ []))
  unfolding shortest
  shortest-IsDiff raw_object a b v w = elim (Bool-cases (ltb (length b.1) (length a.1))) [
    | inl e ↦ rw (e) w
    | inr e ↦ rw (e) v
  ]

  pub delta_v2-IsDiff :
      (previous : Option (Oid × Bytes)) (always_previous : Bool) (raw_object : Bytes) (p q : Oid)
      → IsPrevious f previous
      → length p.raw ≡ 20
      → length q.raw ≡ 20
      → IsDiff raw_object
          (delta_v2 create_chunk_data f (parents p q) previous always_previous raw_object)
  unfolding parents delta_v2 shortest
  delta_v2-IsDiff previous always_previous raw_object p q v lp lq =
      let of_p = candidate-IsDiff previous always_previous raw_object p v in
      let of_q = candidate-IsDiff previous always_previous raw_object q v in
      elim (Bool-cases (is_null p)) [
        | inl a ↦ elim (Bool-cases (is_null q)) [
          | inl b ↦ rw (a, b) (without_parents-IsDiff previous raw_object v)
          | inr b ↦ rw (a, b) (of_q b lq)
        ]
        | inr a ↦ elim (Bool-cases (is_null q)) [
          | inl b ↦ rw (a, b) (of_p a lp)
          | inr b ↦ elim (Bool-cases (bytes_eq p.raw q.raw)) [
            | inl c ↦ rw (a, b, c) (of_p a lp)
            | inr c ↦ rw (a, b, c) (shortest-IsDiff raw_object _ _ (of_p a lp) (of_q b lq))
          ]
        ]
      ]
