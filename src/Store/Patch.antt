-- ===== src/Store/Patch.antt =====
-- src/store.rs: `GitChangesetPatch`, the patch between the changeset that metadata give and the one
-- that there is. The crate `percent_encoding` is a parameter; `none` is an error or a panic.
pub mod RoundTrip
pub mod InCommon
pub mod Cuts
pub mod Shrink
pub mod Overlap
pub mod ShrunkApply
pub mod Percent
use git_cinnabar.Common.{
  ℕ, zero, suc, ◌+◌, ◌-◌, ◌<◌, ◌≤◌, ◌≡◌, Bool, true, false, List, [], ◌∷◌, ◌++◌, Bytes, IsBytes,
  Lacks, Option, none, some, ◌>>=◌, ◌==◌, if◌then◌else◌, length, take, drop, reverse,
}
use git_cinnabar.Util.{splitn_exact_3, split}
use git_cinnabar.Util.Number.{format_nat, parse_u64}
use git_cinnabar.Xdiff.{PatchInfo, slice, apply}

-- `percent_encode(_, NON_ALPHANUMERIC)` and `percent_decode`: what is encoded has no zero byte, and
-- is decoded to the same bytes.
pub record PercentCrate : Type 0 where
  pub percent_encode : Bytes → Bytes
  pub percent_decode : Bytes → Bytes
  pub encode_Lacks : (b : Bytes) → IsBytes b → Lacks 0 (percent_encode b)
  pub decode_encode : (b : Bytes) → IsBytes b → percent_decode (percent_encode b) ≡ b

module _ (percent : PercentCrate) where
  unfoldable pub parse_part : Bytes → Option PatchInfo
  unfolding splitn_exact_3 parse_u64
  parse_part part = splitn_exact_3 b',' part >>= λ parts. parse_u64 parts.0 >>= λ start.
      parse_u64 parts.1 >>= λ end_pos.
      some (record { start = start; end_pos = end_pos; content = percent.percent_decode parts.2 })

  unfoldable pub parse_parts : List Bytes → Option (List PatchInfo)
  unfolding parse_part
  parse_parts [] = some []
  parse_parts (part ∷ parts) = parse_part part >>= λ p. parse_parts parts >>= λ ps. some (p ∷ ps)

  -- `GitChangesetPatch::iter`.
  unfoldable pub iter : Bytes → Option (List PatchInfo)
  unfolding parse_parts split
  iter patch = parse_parts (split 0 patch)

  unfoldable pub apply_patch : Bytes → Bytes → Option Bytes
  unfolding iter apply
  apply_patch patch input = iter patch >>= λ ps. apply ps input

  abbrev pub part_text : PatchInfo → Bytes
  part_text p =
      format_nat p.start ++ b',' ∷ (format_nat p.end_pos ++ b',' ∷ percent.percent_encode p.content)

  unfoldable pub from_patch_info : List PatchInfo → Bytes
  from_patch_info [] = []
  from_patch_info (p ∷ []) = part_text p
  from_patch_info (p ∷ (q ∷ ps)) = part_text p ++ 0 ∷ from_patch_info (q ∷ ps)

-- `zip(..).take_while(a == b).count()`.
unfoldable pub common_prefix : Bytes → Bytes → ℕ
common_prefix (a ∷ as') (b ∷ bs) = let more = common_prefix as' bs in if a == b then suc more else 0
common_prefix _ _ = 0

unfoldable pub common_suffix : Bytes → Bytes → ℕ
unfolding common_prefix
common_suffix a b = common_prefix (reverse a) (reverse b)

-- The patch of a line without what both texts have in common, in `generate`.
unfoldable pub shrink : Bytes → PatchInfo → Option PatchInfo
unfolding common_suffix slice
shrink new p = slice new p.start p.end_pos >>= λ orig.
    slice p.content (common_prefix orig p.content) (length p.content - common_suffix orig p.content)
    >>= λ content. some (record {
      start = p.start + common_prefix orig p.content;
      end_pos = p.end_pos - common_suffix orig p.content;
      content = content;
    })

unfoldable pub shrink_all : Bytes → List PatchInfo → Option (List PatchInfo)
unfolding shrink
shrink_all new [] = some []
shrink_all new (p ∷ ps) = shrink new p >>= λ q. shrink_all new ps >>= λ qs. some (q ∷ qs)
