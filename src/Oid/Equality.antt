-- ===== src/Oid/Equality.antt =====
-- Abbreviated ids are equal when they print the same.
use Prim.Native.Nat.{bit_and}
use git_cinnabar.Common.{
  ℕ, zero, suc, ◌*◌, ◌/◌, ◌%◌, ◌≤◌, ◌<◌, ◌≡◌, refl, ◌↔◌, Bool, true, ◌&&◌, ◌||◌, [], ◌∷◌, Bytes,
  IsBytes, ◌==◌, ==_iff, length, take, get_elem?, bytes_eq, arith, &&-true, and_true, ap, ◌∙◌, sym,
}
use git_cinnabar.Oid.Hex.{HexCrate, hex_digit, hex_digit-injective}
use git_cinnabar.Oid.RoundTrip.{IsOid, display_abbrev-display, mod-suc-suc}
use git_cinnabar.Oid.{
  Abbrev, output_size, hex_bytes, display, display_abbrev, abbrev_eq, same_high_nibble,
}

-- The mask is a cut of the low digit, tried on every number up to `last`.
masks_high : ℕ → Bool
masks_high zero = bit_and 0 0xf0 == 0
masks_high (suc last) = masks_high last && (bit_and (suc last) 0xf0 == suc last / 16 * 16)

masks_high-mask :
    (last byte : ℕ) → byte ≤ last → masks_high last ≡ true → bit_and byte 0xf0 ≡ byte / 16 * 16
unfolding masks_high
masks_high-mask zero byte small tried = ground arith
masks_high-mask (suc last) byte small tried = ground (arith, masks_high-mask last byte)

bytes_masked : masks_high 255 ≡ true
unfolding masks_high
bytes_masked = refl

high_bits : (b : ℕ) → b < 256 → bit_and b 0xf0 ≡ b / 16 * 16
high_bits b h = masks_high-mask 255 b (omega arith) bytes_masked

-- The comparison of `PartialEq`, on the bytes.
abbrev same_digits : ℕ → Bytes → Bytes → Bool
same_digits len a b =
    bytes_eq (take (len / 2) a) (take (len / 2) b)
    && (len % 2 == 0 || same_high_nibble (get_elem? a (len / 2)) (get_elem? b (len / 2)))

div-suc-suc : (n : ℕ) → suc (suc n) / 2 ≡ suc (n / 2)
div-suc-suc n = omega arith

same_digit :
    (b c : ℕ) → b < 256 → c < 256 → hex_digit (b / 16) ≡ hex_digit (c / 16) → b / 16 ≡ c / 16
same_digit b c h k e = hex_digit-injective (b / 16) (c / 16) (omega arith) (omega arith) e

same_byte :
    (b c : ℕ)
    → b < 256
    → c < 256
    → hex_digit (b / 16) ≡ hex_digit (c / 16)
    → hex_digit (b % 16) ≡ hex_digit (c % 16)
    → b ≡ c
same_byte b c h k e f =
    let low = hex_digit-injective (b % 16) (c % 16) (omega arith) (omega arith) f in
    omega (arith, same_digit b c h k e)

same_digits_iff :
    (len : ℕ) (a b : Bytes)
    → IsBytes a
    → IsBytes b
    → len ≤ 2 * length a
    → len ≤ 2 * length b
    → (same_digits len a b ≡ true) ↔ (take len (hex_bytes a) ≡ take len (hex_bytes b))
unfolding hex_bytes bytes_eq same_high_nibble
same_digits_iff zero a b va vb ha hb = (λ _. refl, λ _. refl)
same_digits_iff (suc len) [] b va vb ha hb = absurd (omega arith)
same_digits_iff (suc len) (x ∷ a) [] va vb ha hb = absurd (omega arith)
same_digits_iff (suc zero) (x ∷ a) (y ∷ b) (vx, va) (vy, vb) ha hb =
    rw (high_bits x vx, high_bits y vy) (ground (arith, same_digit x y vx vy))
same_digits_iff (suc (suc len)) (x ∷ a) (y ∷ b) (vx, va) (vy, vb) ha hb =
    let ih = same_digits_iff len a b va vb (omega arith) (omega arith) in
    rw (div-suc-suc len, mod-suc-suc len) (ground (arith, ih, same_byte x y vx vy))

-- Two abbreviated ids, of at most 40 digits, are equal exactly when they have the same length and
-- print the same.
pub abbrev_eq_iff :
    (hex : HexCrate) (a b : Abbrev)
    → IsOid a.oid
    → IsOid b.oid
    → a.len ≤ 2 * output_size
    → b.len ≤ 2 * output_size
    → (abbrev_eq a b ≡ true) ↔ ((a.len ≡ b.len) × (display_abbrev hex a ≡ display_abbrev hex b))
unfolding abbrev_eq display
abbrev_eq_iff hex a b va vb ha hb =
    let digits =
      same_digits_iff a.len a.oid.raw b.oid.raw va.bytes vb.bytes (omega (arith, va.size)) in
    let texts = λ (n : ℕ). take n (hex_bytes b.oid.raw) in
    rw (display_abbrev-display hex a, display_abbrev-display hex b)
      (
        λ h.
            let (same_len, same) = &&-true _ _ h in
            let e = (==_iff a.len b.len).0 same_len in
            (e, (digits (omega (arith, vb.size))).0 same ∙ ap texts e),
        λ h.
            and_true _ _ ((==_iff a.len b.len).1 h.0)
              ((digits (omega (arith, vb.size))).1 (h.1 ∙ sym (ap texts h.0))),
      )
