-- ===== src/Bundle/Rev/Read.antt =====
-- The reader of the bytes of a chunk that `write_chunk` writes (src/hg_bundle.rs).
use git_cinnabar.Common.{
  ℕ, zero, suc, ◌+◌, ◌-◌, ◌*◌, ◌^◌, ◌<◌, ◌≤◌, ◌≡◌, refl, ap, sym, ◌∙◌, false, [], ◌∷◌, ◌++◌, Bytes,
  Option, none, some, ◌==◌, ltb, if◌then◌else◌, is_empty, length, take, drop, take-append,
  drop-append, ok, arith,
}
use git_cinnabar.Oid.{Oid, null_oid, is_null}
use git_cinnabar.Bundle.{write_u32, read_rev_chunk}
use git_cinnabar.Bundle.Chunk.{read_u32-write_u32}
use git_cinnabar.Bundle.Rev.{
  RevChunk, id_at, node, parent1, parent2, delta_node, diff_bytes, RevChunkIter, or_else, rev_chunk,
  next, base_v1,
}
use git_cinnabar.Bundle.Rev.Delta.{text, IsPrevious, IsDiff}

read_rev_chunk-frame :
    (body rest : Bytes)
    → 4 + length body < 2 ^ 32
    → read_rev_chunk (write_u32 (4 + length body) ++ (body ++ rest)) ≡ ok (body, rest)
unfolding read_rev_chunk
read_rev_chunk-frame body rest h =
    let nonzero : (4 + length body == 0) ≡ false = ground arith in
    let four : ltb (4 + length body) 4 ≡ false = ground arith in
    let minus : 4 + length body - 4 ≡ length body = omega arith in
    rw (
      read_rev_chunk,
      read_u32-write_u32 (4 + length body) (body ++ rest) h,
      nonzero,
      four,
      minus,
      take-append (length body) body rest refl,
      drop-append (length body) body rest refl,
    )

drop-nil : (n : ℕ) → drop {A = ℕ} n [] ≡ []
drop-nil zero = refl
drop-nil (suc n) = refl

drop-drop : (n m k : ℕ) (xs : Bytes) → k ≡ n + m → drop k xs ≡ drop m (drop n xs)
drop-drop zero m k xs h = let e : k ≡ m = omega arith in rw (e)
drop-drop (suc n) m zero xs h = absurd (omega arith)
drop-drop (suc n) m (suc k) [] h = sym (drop-nil m)
drop-drop (suc n) m (suc k) (x ∷ xs) h = drop-drop n m k xs (omega arith)

drop-id : (m k : ℕ) (a b : Bytes) → length a ≡ 20 → k ≡ 20 + m → drop k (a ++ b) ≡ drop m b
drop-id m k a b h e = drop-drop 20 m k (a ++ b) e ∙ ap (drop m) (drop-append 20 a b h)

-- A chunk begins with three ids.
three_ids :
    (a b c t : Bytes)
    → length a ≡ 20
    → length b ≡ 20
    → length c ≡ 20
    → (take 20 (drop 0 (a ++ (b ++ (c ++ t)))) ≡ a)
      × (take 20 (drop 20 (a ++ (b ++ (c ++ t)))) ≡ b)
      × (take 20 (drop 40 (a ++ (b ++ (c ++ t)))) ≡ c)
      × (drop 60 (a ++ (b ++ (c ++ t))) ≡ t)
three_ids a b c t la lb lc = (
  take-append 20 a _ la,
  ap (take 20) (drop-id 0 20 a (b ++ (c ++ t)) la refl) ∙ take-append 20 b _ lb,
  ap (take 20) (drop-id 20 40 a (b ++ (c ++ t)) la refl ∙ drop-id 0 20 b (c ++ t) lb refl)
      ∙ take-append 20 c _ lc,
  drop-id 40 60 a (b ++ (c ++ t)) la refl
      ∙ drop-id 20 40 b (c ++ t) lb refl
      ∙ drop-id 0 20 c t lc refl,
)

is_empty-long : (xs : Bytes) → 80 ≤ length xs → is_empty xs ≡ false
is_empty-long [] h = absurd (omega arith)
is_empty-long (x ∷ xs) h = refl

pub next-frame :
    (iter : RevChunkIter) (body rest : Bytes)
    → iter.reader ≡ write_u32 (4 + length body) ++ (body ++ rest)
    → 4 + length body < 2 ^ 32
    → 80 + 20 * (if iter.version == 1 then 0 else 1) ≤ length body
    → next iter ≡ ok (some (rev_chunk iter body rest))
unfolding next
next-frame iter body rest e h l =
    let long : ltb (length body) (80 + 20 * (if iter.version == 1 then 0 else 1)) ≡ false =
      ground arith in
    rw (next, e, read_rev_chunk-frame body rest h, is_empty-long body (omega arith), long)

-- The object that was written last.
unfoldable pub id_of : Option (Oid × Bytes) → Option Oid
id_of none = none
id_of (some (o, t)) = some o

-- The reader of the first version knows the object that was written last.
unfoldable pub Follows : RevChunkIter → Option (Oid × Bytes) → Type 0
unfolding id_of
Follows iter previous =
    (if iter.version == 1 then iter.next_delta_node else id_of previous) ≡ id_of previous

-- A chunk and the reader behind it, for an object with its parents.
unfoldable pub ReadsAs :
    (Bytes → Bytes → Bytes) → (Oid → Bytes) → Oid → Oid → Oid → RevChunk → Type 0
ReadsAs create_chunk_data f node_id p q chunk =
    (node chunk ≡ node_id)
    × (parent1 chunk ≡ p)
    × (parent2 chunk ≡ q)
    × (diff_bytes chunk ≡ create_chunk_data (text f (delta_node chunk)) (f node_id))

module _ (create_chunk_data : Bytes → Bytes → Bytes) (f : Oid → Bytes) where
  base_v1-text :
      (previous : Option (Oid × Bytes)) (p : Oid)
      → IsPrevious f previous
      → base_v1 create_chunk_data f previous p ≡ text f (or_else (id_of previous) p)
  unfolding base_v1 text or_else id_of IsPrevious
  base_v1-text none p v = refl
  base_v1-text (some (o, t)) p (n, e, l) = rw (n, e)

  -- The chunk and the later reader are those of an object that was written.
  unfoldable pub IsChunkOf :
      ℕ → Oid → Oid → Oid → Option (Oid × Bytes) → Bytes → RevChunk × RevChunkIter → Type 0
  unfolding ReadsAs
  IsChunkOf version node_id p q previous rest r =
      ReadsAs create_chunk_data f node_id p q r.0
      × (r.1.version ≡ version)
      × Follows r.1 previous
      × IsPrevious f previous
      × (r.1.reader ≡ rest)

  module _ (last : Option Oid) (later : Option Oid) (reader : Bytes) (node_id p q changeset : Oid)
      (previous : Option (Oid × Bytes)) (v : IsPrevious f previous) (n : is_null node_id ≡ false)
      (ln : length node_id.raw ≡ 20) (lp : length p.raw ≡ 20) (lq : length q.raw ≡ 20)
      (lc : length changeset.raw ≡ 20) where
    oid : Bytes → Oid
    oid r = record { raw = r }

    pub chunk_v1 :
        (d rest : Bytes)
        → later ≡ id_of previous
        → d ≡ create_chunk_data (base_v1 create_chunk_data f previous p) (f node_id)
        → IsChunkOf 1 node_id p q (some (node_id, f node_id)) rest (
            rev_chunk
              (record {
                version = 1;
                last_delta_node = last;
                next_delta_node = later;
                reader = reader;
              })
              (node_id.raw ++ (p.raw ++ (q.raw ++ (changeset.raw ++ d))))
              rest)
    unfolding IsChunkOf Follows IsPrevious rev_chunk ReadsAs node parent1 parent2 diff_bytes
        delta_node id_at id_of oid
    chunk_v1 d rest s e =
        let body : Bytes = node_id.raw ++ (p.raw ++ (q.raw ++ (changeset.raw ++ d))) in
        let (a, b, c, t) = three_ids node_id.raw p.raw q.raw (changeset.raw ++ d) ln lp lq in
        let diff : drop 80 body ≡ d =
          drop-drop 60 20 80 body refl ∙ ap (drop 20) t ∙ drop-append 20 changeset.raw d lc in
        let base : base_v1 create_chunk_data f previous p
            ≡ text f (or_else later (oid (take 20 (drop 20 body)))) =
          base_v1-text previous p v
          ∙ ap (λ x. text f (or_else x p)) (sym s)
          ∙ ap (λ r. text f (or_else later (oid r))) (sym b) in
        (
          (ap oid a, ap oid b, ap oid c, diff ∙ e ∙ ap (λ t. create_chunk_data t (f node_id)) base),
          refl,
          ap (λ r. some (oid r)) a,
          (n, refl, ln),
          refl,
        )

    pub chunk_v2 :
        (d : Option Oid × Bytes) (rest : Bytes)
        → IsDiff create_chunk_data f (f node_id) d
        → IsChunkOf 2 node_id p q (some (node_id, f node_id)) rest (
            rev_chunk
              (record {
                version = 2;
                last_delta_node = last;
                next_delta_node = later;
                reader = reader;
              })
              (node_id.raw
                ++ (p.raw ++ (q.raw ++ ((or_else d.0 null_oid).raw ++ (changeset.raw ++ d.1)))))
              rest)
    unfolding IsDiff IsChunkOf Follows IsPrevious rev_chunk ReadsAs node parent1 parent2 diff_bytes
        delta_node id_at id_of oid
    chunk_v2 d rest (e, ld) =
        let delta_id : Bytes = (or_else d.0 null_oid).raw in
        let body : Bytes =
          node_id.raw ++ (p.raw ++ (q.raw ++ (delta_id ++ (changeset.raw ++ d.1)))) in
        let (a, b, c, t) =
          three_ids node_id.raw p.raw q.raw (delta_id ++ (changeset.raw ++ d.1)) ln lp lq in
        let diff : drop 100 body ≡ d.1 =
          drop-drop 60 40 100 body refl
          ∙ ap (drop 40) t
          ∙ drop-id 20 40 delta_id (changeset.raw ++ d.1) ld refl
          ∙ drop-append 20 changeset.raw d.1 lc in
        let base : or_else d.0 null_oid ≡ oid (take 20 (drop 60 body)) =
          ap oid (sym (ap (take 20) t ∙ take-append 20 delta_id (changeset.raw ++ d.1) ld)) in
        (
          (
            ap oid a,
            ap oid b,
            ap oid c,
            diff ∙ e ∙ ap (λ o. create_chunk_data (text f o) (f node_id)) base,
          ),
          refl,
          refl,
          (n, refl, ln),
          refl,
        )
