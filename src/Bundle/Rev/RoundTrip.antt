-- ===== src/Bundle/Rev/RoundTrip.antt =====
-- `write_chunk`, and `RevChunkIter::next` behind it (src/hg_bundle.rs).
use git_cinnabar.Common.{
  ℕ, ◌+◌, ◌^◌, ◌<◌, ◌≡◌, refl, ap, sym, ◌⊎◌, inl, inr, Bool, false, ◌++◌, Bytes, Option, none, some,
  ltb, if◌then◌else◌, Bool-cases, ltb→lt, length, length-append, append_assoc, ok, arith,
}
use git_cinnabar.Oid.{Oid, null_oid, is_null}
use git_cinnabar.Bundle.{write_u32}
use git_cinnabar.Bundle.Rev.{
  RevChunk, RevChunkIter, or_else, next, rev_chunk, parents, base_v1, delta_v2, delta, delta_bytes,
  write_chunk,
}
use git_cinnabar.Bundle.Rev.Delta.{IsPrevious, IsDiff, delta_v2-IsDiff}
use git_cinnabar.Bundle.Rev.Read.{Follows, id_of, IsChunkOf, chunk_v1, chunk_v2, next-frame}

some-inj : (x y : Bytes × Option (Oid × Bytes)) → some x ≡ some y → x ≡ y
some-inj x y h = ground (arith)

-- A chunk that is written has a length that is a u32.
written_chunk :
    (len : ℕ) (x y : Bytes × Option (Oid × Bytes))
    → (if ltb len (2 ^ 32) then some x else none) ≡ some y
    → (len < 2 ^ 32) × (x ≡ y)
written_chunk len x y h = elim (Bool-cases (ltb len (2 ^ 32))) [
  | inl fits ↦ let h' : some x ≡ some y = rw (fits) at h in (ltb→lt _ _ fits, some-inj x y h')
  | inr long ↦ ground (arith)
]

length-ids :
    (a b c e d : Bytes)
    → length a ≡ 20
    → length b ≡ 20
    → length c ≡ 20
    → length e ≡ 20
    → length (a ++ (b ++ (c ++ (e ++ d)))) ≡ 80 + length d
length-ids a b c e d la lb lc le =
    rw
      (
        length-append a (b ++ (c ++ (e ++ d))),
        length-append b (c ++ (e ++ d)),
        length-append c (e ++ d),
        length-append e d,
      )
      (omega arith)

read_v1 :
    (create_chunk_data : Bytes → Bytes → Bytes) (f : Oid → Bytes)
    → (last : Option Oid) (node_id p q changeset : Oid)
    → (previous : Option (Oid × Bytes)) (always_previous : Bool)
    → (written rest : Bytes) (previous' : Option (Oid × Bytes)) → IsPrevious f previous
    → is_null node_id ≡ false
    → length node_id.raw ≡ 20
    → length p.raw ≡ 20
    → length q.raw ≡ 20
    → length changeset.raw ≡ 20
    → write_chunk create_chunk_data f 1 node_id p q changeset previous always_previous
      ≡ some (written, previous')
    → (r : RevChunk × RevChunkIter) × (next (record {
      version = 1;
      last_delta_node = last;
      next_delta_node = id_of previous;
      reader = written ++ rest;
    })
        ≡ ok (some r))
      × IsChunkOf create_chunk_data f 1 node_id p q previous' rest r
unfolding write_chunk delta delta_bytes
read_v1 create f last node_id p q changeset previous always written rest previous' v n ln lp lq lc
      h =
    let d : Bytes = create (base_v1 create f previous p) (f node_id) in
    let body : Bytes = node_id.raw ++ (p.raw ++ (q.raw ++ (changeset.raw ++ d))) in
    let len : length body ≡ 80 + length d = length-ids _ _ _ _ d ln lp lq lc in
    let total : 4 + length d + 80 + 0 ≡ 4 + length body = omega arith in
    let (fits, same) =
      written_chunk (4 + length d + 80 + 0)
        (write_u32 (4 + length d + 80 + 0) ++ body, some (node_id, f node_id)) (written, previous')
        h in
    let w : write_u32 (4 + length body) ++ body ≡ written = rw (sym total) (ap (λ x. x.0) same) in
    let reader : written ++ rest ≡ write_u32 (4 + length body) ++ (body ++ rest) =
      rw (sym w) (append_assoc (write_u32 (4 + length body)) body rest) in
    let iter : RevChunkIter = record {
      version = 1;
      last_delta_node = last;
      next_delta_node = id_of previous;
      reader = written ++ rest;
    } in
    (
      rev_chunk iter body rest,
      next-frame iter body rest reader (omega arith) (omega arith),
      rw (sym (ap (λ x. x.1) same)) (
          chunk_v1 create f last (id_of previous) (written ++ rest) node_id p q changeset previous v
            n ln lp lq lc d rest refl refl),
    )

length_delta :
    (create_chunk_data : Bytes → Bytes → Bytes) (f : Oid → Bytes) (raw_object : Bytes)
    (d : Option Oid × Bytes)
    → IsDiff create_chunk_data f raw_object d
    → length ((or_else d.0 null_oid).raw) ≡ 20
unfolding IsDiff
length_delta create f raw_object d diff = diff.1

read_v2 :
    (create_chunk_data : Bytes → Bytes → Bytes) (f : Oid → Bytes)
    → (last later : Option Oid) (node_id p q changeset : Oid)
    → (previous : Option (Oid × Bytes)) (always_previous : Bool)
    → (written rest : Bytes) (previous' : Option (Oid × Bytes)) → IsPrevious f previous
    → is_null node_id ≡ false
    → length node_id.raw ≡ 20
    → length p.raw ≡ 20
    → length q.raw ≡ 20
    → length changeset.raw ≡ 20
    → write_chunk create_chunk_data f 2 node_id p q changeset previous always_previous
      ≡ some (written, previous')
    → (r : RevChunk × RevChunkIter) × (next (record {
      version = 2;
      last_delta_node = last;
      next_delta_node = later;
      reader = written ++ rest;
    })
        ≡ ok (some r))
      × IsChunkOf create_chunk_data f 2 node_id p q previous' rest r
unfolding write_chunk delta delta_bytes
read_v2 create f last later node_id p q changeset previous always written rest previous' v n ln lp
      lq lc h =
    let d : Option Oid × Bytes = delta_v2 create f (parents p q) previous always (f node_id) in
    let diff : IsDiff create f (f node_id) d =
      delta_v2-IsDiff create f previous always (f node_id) p q v lp lq in
    let delta_id : Bytes = (or_else d.0 null_oid).raw in
    let body : Bytes = node_id.raw ++ (p.raw ++ (q.raw ++ (delta_id ++ (changeset.raw ++ d.1)))) in
    let len : length body ≡ 80 + length (changeset.raw ++ d.1) =
      length-ids _ _ _ _ (changeset.raw ++ d.1) ln lp lq
        (length_delta create f (f node_id) d diff) in
    let total : 4 + length d.1 + 80 + 20 ≡ 4 + length body =
      omega (arith, length-append changeset.raw d.1) in
    let (fits, same) =
      written_chunk (4 + length d.1 + 80 + 20)
        (write_u32 (4 + length d.1 + 80 + 20) ++ body, some (node_id, f node_id))
        (written, previous') h in
    let w : write_u32 (4 + length body) ++ body ≡ written = rw (sym total) (ap (λ x. x.0) same) in
    let reader : written ++ rest ≡ write_u32 (4 + length body) ++ (body ++ rest) =
      rw (sym w) (append_assoc (write_u32 (4 + length body)) body rest) in
    let iter : RevChunkIter = record {
      version = 2;
      last_delta_node = last;
      next_delta_node = later;
      reader = written ++ rest;
    } in
    (
      rev_chunk iter body rest,
      next-frame iter body rest reader (omega arith) (omega arith),
      rw (sym (ap (λ x. x.1) same)) (
          chunk_v2 create f last later (written ++ rest) node_id p q changeset previous v n ln lp lq
            lc d rest diff),
    )

-- A chunk of version 1 or 2 that is written for an object whose id is not null, all ids having
-- twenty bytes, is read back by a reader that knows the object written before it: the reader gives
-- the object's id and its parents, with the difference of the object's text from the text of the
-- delta node that it gives, which is no text for the null id; it then stands behind the chunk, and
-- knows this object. The object written before, if there is one, has an id that is not null, and
-- its own text.
pub write_chunk_read :
    (create_chunk_data : Bytes → Bytes → Bytes) (f : Oid → Bytes) (version : ℕ)
    → (last later : Option Oid) (node_id p q changeset : Oid)
    → (previous : Option (Oid × Bytes)) (always_previous : Bool)
    → (written rest : Bytes) (previous' : Option (Oid × Bytes)) → (version ≡ 1) ⊎ (version ≡ 2)
    → IsPrevious f previous
    → is_null node_id ≡ false
    → length node_id.raw ≡ 20
    → length p.raw ≡ 20
    → length q.raw ≡ 20
    → length changeset.raw ≡ 20
    → Follows
        (record {
          version = version;
          last_delta_node = last;
          next_delta_node = later;
          reader = written ++ rest;
        })
        previous
    → write_chunk create_chunk_data f version node_id p q changeset previous always_previous
      ≡ some (written, previous')
    → (r : RevChunk × RevChunkIter) × (next (record {
      version = version;
      last_delta_node = last;
      next_delta_node = later;
      reader = written ++ rest;
    })
        ≡ ok (some r))
      × IsChunkOf create_chunk_data f version node_id p q previous' rest r
unfolding Follows
write_chunk_read create f version last later node_id p q changeset previous always written rest
      previous' one_two v n ln lp lq lc s h =
    elim one_two [
      | inl one ↦
          let s' : later ≡ id_of previous = rw (one) at s in
          let h' : write_chunk create f 1 node_id p q changeset previous always
              ≡ some (written, previous') =
            rw (one) at h in
          rw (one, s')
            (read_v1 create f last node_id p q changeset previous always written rest previous' v n
              ln lp lq lc h')
      | inr two ↦
          let h' : write_chunk create f 2 node_id p q changeset previous always
              ≡ some (written, previous') =
            rw (two) at h in
          rw (two) (
            read_v2 create f last later node_id p q changeset previous always written rest previous'
              v n ln lp lq lc h')
    ]
