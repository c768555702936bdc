-- ===== src/Segments/Descriptors.antt =====
-- What the processor reads from the descriptors of module/gdt/main.c.
use modit_micro.Base.{
  ==-self, ==-false, ℕ, ◌+◌, ◌*◌, ◌/◌, ◌%◌, ◌^◌, ◌<◌, ◌≡◌, ◌≢◌, refl, ◌∙◌, ap, arith, bit_and,
  bit_or,
}
use modit_micro.Base.Bits.{bit_or_low, bit_and_shift, bit_and_low}
use modit_micro.Segments.{GdtEntry, Gdts, add_gdt}

abbrev pub segment_base : GdtEntry → ℕ
segment_base g = g.base_high * 2 ^ 24 + g.base_mid * 2 ^ 16 + g.base_low

-- In bytes or in pages.
abbrev pub segment_limit : GdtEntry → ℕ
segment_limit g = g.flags % 2 ^ 4 * 2 ^ 16 + g.limit_low

-- The flags byte: the high half comes from `flags`, the low one from the limit.
flags_byte :
    (limit flags : ℕ)
    → flags < 2 ^ 8
    → bit_or (limit / 2 ^ 16 % 2 ^ 4) (bit_and flags 0xF0)
      ≡ flags / 2 ^ 4 * 2 ^ 4 + limit / 2 ^ 16 % 2 ^ 4
flags_byte limit flags small =
    let q = flags / 2 ^ 4 in
    let split : flags ≡ q * 2 ^ 4 + flags % 2 ^ 4 = omega arith in
    let whole : q ≡ 0 * 2 ^ 4 + q = omega arith in
    let nibble : bit_and q 0xF ≡ q =
      ap (λ x. bit_and x 0xF) whole ∙ bit_and_low 4 0 q (omega arith) in
    let high : bit_and flags 0xF0 ≡ q * 2 ^ 4 =
      ap (λ x. bit_and x 0xF0) split
      ∙ bit_and_shift 4 q (flags % 2 ^ 4) 0xF (omega arith)
      ∙ ap (λ x. x * 2 ^ 4) nibble in
    ap (bit_or (limit / 2 ^ 16 % 2 ^ 4)) high
    ∙ bit_or_low 4 q (limit / 2 ^ 16 % 2 ^ 4) (omega arith)

-- A descriptor as the processor reads it.
pub record Describes (base limit access flags : ℕ) (g : GdtEntry) : Type 0 where
  starts : segment_base g ≡ base
  ends : segment_limit g ≡ limit % 2 ^ 20
  rights : g.access ≡ access
  kind : g.flags / 2 ^ 4 ≡ flags / 2 ^ 4

-- The descriptor that `add_gdt` makes of a 32-bit base and limit and of bytes of rights and flags is read
-- as this base, the low 20 bits of the limit, these rights and the high half of the flags; the other
-- descriptors stay.
pub add_gdt-Describes :
    (i base limit access flags : ℕ) (gdts : Gdts)
    → base < 2 ^ 32
    → limit < 2 ^ 32
    → flags < 2 ^ 8
    → Describes base limit access flags (add_gdt i base limit access flags gdts i)
      × ((j : ℕ) → i ≢ j → add_gdt i base limit access flags gdts j ≡ gdts j)
unfolding add_gdt
add_gdt-Describes i base limit access flags gdts b l f =
    let byte = flags_byte limit flags f in
    (
      rw (add_gdt, ==-self i, byte)
          (record {
            starts = omega (arith, b);
            ends = omega (arith, l);
            rights = refl;
            kind = omega arith;
          }),
      λ j ne. rw (add_gdt, ==-false ne) refl,
    )
