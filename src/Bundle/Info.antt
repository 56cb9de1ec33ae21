-- ===== src/Bundle/Info.antt =====
-- src/hg_bundle.rs: `BundlePartInfo`, the header of a part. The tables of Unicode behind the case of
-- letters, and UTF-8, are parameters, with what they do on ASCII.
pub mod Params
pub mod RoundTrip
use git_cinnabar.Common.{
  ℕ, zero, suc, ◌+◌, ◌-◌, ◌%◌, ◌≡◌, ◌<◌, Bool, true, false, ◌&&◌, List, [], ◌∷◌, ◌++◌, Bytes, All,
  Option, none, some, ◌>>=◌, ◌>>◌, guard, ltb, leb, if◌then◌else◌, length, map, bytes_eq,
}
use git_cinnabar.Bundle.{write_u32, read_u32, read_exactly}

abbrev pub IsAscii : Bytes → Type 0
IsAscii = All (λ c. c < 128)

abbrev pub is_upper : ℕ → Bool
is_upper c = leb b'A' c && leb c b'Z'

abbrev pub lower : ℕ → ℕ
lower c = if leb b'A' c && leb c b'Z' then c + 32 else c

abbrev pub upper : ℕ → ℕ
upper c = if leb b'a' c && leb c b'z' then c - 32 else c

pub record Unicode : Type 0 where
  pub to_lowercase : Bytes → Bytes
  pub to_uppercase : Bytes → Bytes
  -- `chars().next().map_or(false, char::is_uppercase)`.
  pub starts_uppercase : Bytes → Bool
  pub is_utf8 : Bytes → Bool
  pub lower_ascii : (s : Bytes) → IsAscii s → to_lowercase s ≡ map lower s
  pub upper_ascii : (s : Bytes) → IsAscii s → to_uppercase s ≡ map upper s
  pub starts_nil : starts_uppercase [] ≡ false
  pub starts_ascii : (c : ℕ) (s : Bytes) → IsAscii (c ∷ s) → starts_uppercase (c ∷ s) ≡ is_upper c
  pub utf8_ascii : (s : Bytes) → IsAscii s → is_utf8 s ≡ true

-- The parameters are in the order in which they were inserted.
pub record BundlePartInfo : Type 0 where
  pub mandatory : Bool
  pub part_type : Bytes
  pub part_id : ℕ
  pub params : List (Bytes × Bytes)

-- `IndexMap::insert`: a key that is there keeps its place.
unfoldable pub insert : Bytes → Bytes → List (Bytes × Bytes) → List (Bytes × Bytes)
insert name value [] = (name, value) ∷ []
insert name value ((n, v) ∷ params) =
    if bytes_eq n name then (n, value) ∷ params else (n, v) ∷ insert name value params

-- `collect` into an `IndexMap`.
unfoldable pub collect : List (Bytes × Bytes) → List (Bytes × Bytes) → List (Bytes × Bytes)
collect params [] = params
collect params ((n, v) ∷ rest) = collect (insert n v params) rest

unfoldable pub get_param : Bytes → List (Bytes × Bytes) → Option Bytes
get_param name [] = none
get_param name ((n, v) ∷ params) = if bytes_eq n name then some v else get_param name params

unfoldable pub set_param : BundlePartInfo → Bytes → Bytes → BundlePartInfo
unfolding insert
set_param info name value = record info { params = insert name value info.params }

unfoldable pub read_u8 : Bytes → Option (ℕ × Bytes)
read_u8 [] = none
read_u8 (b ∷ reader) = some (b, reader)

unfoldable pub read_lengths : ℕ → Bytes → Option (List (ℕ × ℕ) × Bytes)
unfolding read_u8
read_lengths zero reader = some ([], reader)
read_lengths (suc n) reader = read_u8 reader >>= λ a.
    read_u8 a.1 >>= λ b. read_lengths n b.1 >>= λ rest. some ((a.0, b.0) ∷ rest.0, rest.1)

-- The lengths of the parameters; an assertion fails for one of 256 bytes or more.
unfoldable pub write_lengths : List (Bytes × Bytes) → Option Bytes
write_lengths [] = some []
write_lengths ((n, v) ∷ params) =
    guard (ltb (length n) 256)
    >> (guard (ltb (length v) 256)
        >> (write_lengths params >>= λ rest. some (length n ∷ length v ∷ rest)))

unfoldable pub write_params : List (Bytes × Bytes) → Bytes
write_params [] = []
write_params ((n, v) ∷ params) = n ++ (v ++ write_params params)

module _ (unicode : Unicode) where
  unfoldable pub new : ℕ → Bytes → BundlePartInfo
  new part_id part_type = record {
    mandatory = true;
    part_type = unicode.to_lowercase part_type;
    part_id = part_id;
    params = [];
  }

  -- `ReadExt::read_exactly_to_string`.
  unfoldable pub read_exactly_to_string : ℕ → Bytes → Option (Bytes × Bytes)
  read_exactly_to_string len reader =
      read_exactly len reader >>= λ s. if unicode.is_utf8 s.0 then some s else none

  unfoldable pub read_params : List (ℕ × ℕ) → Bytes → Option (List (Bytes × Bytes) × Bytes)
  unfolding read_exactly_to_string
  read_params [] reader = some ([], reader)
  read_params ((name_len, value_len) ∷ lengths) reader =
      read_exactly_to_string name_len reader >>= λ name.
      read_exactly_to_string value_len name.1 >>= λ value.
      read_params lengths value.1 >>= λ rest. some ((name.0, value.0) ∷ rest.0, rest.1)

  -- The sum of the two numbers of parameters is that of two u8s.
  unfoldable pub read_from : Bytes → Option (BundlePartInfo × Bytes)
  unfolding read_u8 read_exactly_to_string collect
  read_from reader = do
    (part_type_len, r1) ← read_u8 reader
    (part_type, r2) ← read_exactly_to_string part_type_len r1
    (part_id, r3) ← read_u32 r2
    (mandatory_params_num, r4) ← read_u8 r3
    (advisory_params_num, r5) ← read_u8 r4
    (param_lengths, r6) ← read_lengths ((mandatory_params_num + advisory_params_num) % 256) r5
    (params, r7) ← read_params param_lengths r6
    some (
      record {
        mandatory = unicode.starts_uppercase part_type;
        part_type = unicode.to_lowercase part_type;
        part_id = part_id;
        params = collect [] params;
      },
      r7,
    )

  -- `none` is an assertion that fails.
  unfoldable pub write_into : BundlePartInfo → Option Bytes
  write_into info =
      guard (ltb (length info.part_type) 256)
      >> (guard (ltb (length info.params) 256)
          >> (write_lengths info.params >>= λ lengths. some (
              length info.part_type % 256
              ∷ ((if info.mandatory
                    then unicode.to_uppercase info.part_type
                    else unicode.to_lowercase info.part_type)
                  ++ (write_u32 info.part_id
                      ++ (length info.params % 256 ∷ 0 ∷ (lengths ++ write_params info.params)))))))
