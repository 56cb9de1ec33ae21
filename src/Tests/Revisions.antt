-- ===== src/Tests/Revisions.antt =====
-- A revision of a changegroup, on small inputs.
use git_cinnabar.Common.{
  ℕ, ◌≡◌, refl, inr, false, ◌∷◌, [], ◌++◌, Bytes, Option, none, some, length, ok, bytes_eq,
}
use git_cinnabar.Bundle.Rev.{RevChunk, RevChunkIter, next, delta, write_chunk}
use git_cinnabar.Bundle.Rev.Delta.{IsPrevious}
use git_cinnabar.Bundle.Rev.Read.{Follows, IsChunkOf}
use git_cinnabar.Bundle.Rev.RoundTrip.{write_chunk_read}
use git_cinnabar.Bundle.{write_u32}
use git_cinnabar.Oid.{Oid, zeros, is_null}

abbrev id : ℕ → Oid
id n = record { raw = n ∷ zeros 19 }

-- The difference is the length of the old text, and the new text.
abbrev difference : Bytes → Bytes → Bytes
difference old new = length old ∷ new

abbrev object : Oid → Bytes
object o = 7 ∷ o.raw

abbrev last_written : Option (Oid × Bytes)
last_written = some (id 2, object (id 2))

abbrev chunk : Bytes
chunk =
    write_u32 126
    ++ ((id 1).raw
        ++ ((id 2).raw
            ++ ((id 3).raw
                ++ ((id 2).raw ++ ((id 4).raw ++ difference (object (id 2)) (object (id 1)))))))

chunk_written :
    write_chunk difference object 2 (id 1) (id 2) (id 3) (id 4) last_written false
    ≡ some (chunk, some (id 1, object (id 1)))
unfolding write_chunk delta is_null bytes_eq
chunk_written = refl

id_not_null : is_null (id 1) ≡ false
unfolding is_null
id_not_null = refl

last_written-IsPrevious : IsPrevious object last_written
unfolding IsPrevious is_null
last_written-IsPrevious = (refl, refl, refl)

follows :
    Follows
      (record {
        version = 2;
        last_delta_node = none;
        next_delta_node = none;
        reader = chunk ++ 9 ∷ [];
      })
      last_written
unfolding Follows
follows = refl

write_chunk_read_example :
    (r : RevChunk × RevChunkIter) × (next (record {
      version = 2;
      last_delta_node = none;
      next_delta_node = none;
      reader = chunk ++ 9 ∷ [];
    })
      ≡ ok (some r))
    × IsChunkOf difference object 2 (id 1) (id 2) (id 3) (some (id 1, object (id 1))) (9 ∷ []) r
write_chunk_read_example =
    write_chunk_read difference object 2 none none (id 1) (id 2) (id 3) (id 4) last_written false
      chunk (9 ∷ []) (some (id 1, object (id 1))) (inr refl) last_written-IsPrevious id_not_null
      refl refl refl refl follows chunk_written
