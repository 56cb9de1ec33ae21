-- ===== src/Bundle/Info/RoundTrip.antt =====
-- The header of a part reads back as it was written (src/hg_bundle.rs).
use git_cinnabar.Common.{
  ℕ, suc, ◌+◌, ◌%◌, ◌^◌, ◌≡◌, ◌<◌, ◌≤◌, refl, ap, sym, ◌∙◌, Bool, true, false, [], ◌∷◌, ◌++◌, Bytes,
  All, some, ◌>>=◌, ◌>>◌, guard, >>=-eq-some, ltb, ltb→lt, if◌then◌else◌, length, map, append_assoc,
  arith,
}
use git_cinnabar.Bundle.{write_u32}
use git_cinnabar.Bundle.Chunk.{read_u32-write_u32}
use git_cinnabar.Bundle.Info.{
  Unicode, BundlePartInfo, IsAscii, lower, upper, is_upper, read_u8, write_lengths, write_params,
  read_from, write_into,
}
use git_cinnabar.Bundle.Info.Params.{
  IsIndexMap, AsciiParams, collect-IsIndexMap, guard-then, read_lengths-write_lengths, read_string,
  read_params-write_params,
}

-- Characters that are not upper case.
abbrev pub IsLower : Bytes → Type 0
IsLower = All (λ c. (c < 128) × (is_upper c ≡ false))

-- A mandatory part is told by an upper case letter at the start of its type.
abbrev pub StartsWithLetter : Bytes → Type 0
StartsWithLetter [] = ⊥
StartsWithLetter (c ∷ s) = (b'a' ≤ c) × (c ≤ b'z')

abbrev pub MayBeMandatory : Bool → Bytes → Type 0
MayBeMandatory true s = StartsWithLetter s
MayBeMandatory false s = Unit

pub record IsInfo (info : BundlePartInfo) : Type 0 where
  pub part_type : IsLower info.part_type
  pub mandatory : MayBeMandatory info.mandatory info.part_type
  pub part_id : info.part_id < 2 ^ 32
  pub params : IsIndexMap info.params
  pub ascii : AsciiParams info.params

IsLower-IsAscii : (s : Bytes) → IsLower s → IsAscii s
IsLower-IsAscii [] h = tt
IsLower-IsAscii (c ∷ s) ((h, _), hs) = (h, IsLower-IsAscii s hs)

map-lower : (s : Bytes) → IsLower s → map lower s ≡ s
map-lower [] h = refl
map-lower (c ∷ s) ((h, k), hs) = ground (arith, map-lower s hs)

map-lower-upper : (s : Bytes) → IsLower s → map lower (map upper s) ≡ s
map-lower-upper [] h = refl
map-lower-upper (c ∷ s) ((h, k), hs) = ground (arith, map-lower-upper s hs)

upper-IsAscii : (s : Bytes) → IsLower s → IsAscii (map upper s)
upper-IsAscii [] h = tt
upper-IsAscii (c ∷ s) ((h, k), hs) = (ground arith, upper-IsAscii s hs)

length-map : (f : ℕ → ℕ) (s : Bytes) → length (map f s) ≡ length s
length-map f [] = refl
length-map f (c ∷ s) = ap suc (length-map f s)

some-injective : {a b : Bytes} → some a ≡ some b → a ≡ b
some-injective h = cc

module _ (unicode : Unicode) where
  -- The type as it is written.
  abbrev written_type : Bool → Bytes → Bytes
  written_type mandatory s = if mandatory then unicode.to_uppercase s else unicode.to_lowercase s

  record Written (mandatory : Bool) (s : Bytes) (t : Bytes) : Type 0 where
    size : length t ≡ length s
    ascii : IsAscii t
    back : unicode.to_lowercase t ≡ s
    told : unicode.starts_uppercase t ≡ mandatory

  starts-upper :
      (s : Bytes) → IsLower s → StartsWithLetter s → unicode.starts_uppercase (map upper s) ≡ true
  starts-upper [] h k = elim k [ ]
  starts-upper (c ∷ s) h k =
      unicode.starts_ascii (upper c) (map upper s) (upper-IsAscii (c ∷ s) h) ∙ ground arith

  starts-lower : (s : Bytes) → IsLower s → unicode.starts_uppercase s ≡ false
  starts-lower [] h = unicode.starts_nil
  starts-lower (c ∷ s) h = unicode.starts_ascii c s (IsLower-IsAscii (c ∷ s) h) ∙ h.0.1

  written_type-Written :
      (mandatory : Bool) (s : Bytes)
      → IsLower s
      → MayBeMandatory mandatory s
      → Written mandatory s (written_type mandatory s)
  written_type-Written true s h k = rw (unicode.upper_ascii s (IsLower-IsAscii s h)) (record {
    size = length-map upper s;
    ascii = upper-IsAscii s h;
    back = unicode.lower_ascii (map upper s) (upper-IsAscii s h) ∙ map-lower-upper s h;
    told = starts-upper s h k;
  })
  written_type-Written false s h k =
      let same : unicode.to_lowercase s ≡ s =
        unicode.lower_ascii s (IsLower-IsAscii s h) ∙ map-lower s h in
      rw same
        (record { size = refl; ascii = IsLower-IsAscii s h; back = same; told = starts-lower s h })

  -- The bytes behind the length of the type, and what is behind them.
  header : BundlePartInfo → Bytes → Bytes → Bytes
  header info lengths rest =
      written_type info.mandatory info.part_type
      ++ (write_u32 info.part_id
          ++ (length info.params ∷ 0 ∷ (lengths ++ (write_params info.params ++ rest))))

  write_into-some :
      (info : BundlePartInfo) (text rest : Bytes)
      → write_into unicode info ≡ some text
      → (lengths : Bytes) × (write_lengths info.params ≡ some lengths)
        × (length info.params < 256)
        × (text ++ rest ≡ length info.part_type ∷ header info lengths rest)
  unfolding write_into header
  write_into-some info text rest h =
      let body = λ (lengths : Bytes).
        length info.part_type % 256
        ∷ (written_type info.mandatory info.part_type
            ++ (write_u32 info.part_id
                ++ (length info.params % 256 ∷ 0 ∷ (lengths ++ write_params info.params)))) in
      let last = write_lengths info.params >>= λ lengths. some (body lengths) in
      let (few_bytes, h1) =
        guard-then (ltb (length info.part_type) 256) (guard (ltb (length info.params) 256) >> last)
          h in
      let (few_params, h2) = guard-then (ltb (length info.params) 256) last h1 in
      let (lengths, e, h3) = >>=-eq-some (write_lengths info.params) (λ l. some (body l)) h2 in
      let type_size : length info.part_type % 256 ≡ length info.part_type =
        omega (arith, ltb→lt _ _ few_bytes) in
      let params_size : length info.params % 256 ≡ length info.params =
        omega (arith, ltb→lt _ _ few_params) in
      let whole : text ≡ body lengths = some-injective (sym h3) in
      (
        lengths,
        e,
        ltb→lt _ _ few_params,
        rw (
          whole,
          type_size,
          params_size,
          append_assoc (written_type info.mandatory info.part_type)
              (write_u32 info.part_id
                ++ (length info.params ∷ 0 ∷ (lengths ++ write_params info.params)))
              rest,
          append_assoc (write_u32 info.part_id)
              (length info.params ∷ 0 ∷ (lengths ++ write_params info.params)) rest,
          append_assoc lengths (write_params info.params) rest,
        ),
      )

  -- The header that was written is read back, with what is behind it left, where the type and the
  -- parameters are ASCII, the type has no upper case letter, and starts with a letter if the part is
  -- mandatory, the id is a u32 and no parameter is there twice.
  pub read_from-write_into :
      (info : BundlePartInfo) (text rest : Bytes)
      → IsInfo info
      → write_into unicode info ≡ some text
      → read_from unicode (text ++ rest) ≡ some (info, rest)
  unfolding read_from header read_u8
  read_from-write_into info text rest v h =
      let (lengths, e, few, whole) = write_into-some info text rest h in
      let w = written_type-Written info.mandatory info.part_type v.part_type v.mandatory in
      let t = written_type info.mandatory info.part_type in
      let behind = lengths ++ (write_params info.params ++ rest) in
      let count : (length info.params + 0) % 256 ≡ length info.params = omega arith in
      rw (
        whole,
        ← w.size,
        read_string unicode t (write_u32 info.part_id ++ (length info.params ∷ 0 ∷ behind)) w.ascii,
        read_u32-write_u32 info.part_id (length info.params ∷ 0 ∷ behind) v.part_id,
        count,
        read_lengths-write_lengths info.params lengths (write_params info.params ++ rest) e,
        read_params-write_params unicode info.params rest v.ascii,
        w.told,
        w.back,
        collect-IsIndexMap info.params v.params,
      )
