-- ===== src/Descriptors/Fields.antt =====
-- kernel/gdt.c, kernel/idt.c and kernel/timer.c: the hardware reads back what was packed.
use tuple_os.Common.{
  ℕ, ◌+◌, ◌*◌, ◌/◌, ◌%◌, ◌<◌, ◌≡◌, refl, arith, true, bit_and, bit_or, ◌==◌, u32_mod, holds_below,
  holds_below_lem, ==_iff, ltb, if◌then◌else◌,
}
use tuple_os.Common.Bits.{bit_and-ones, bit_and-shifted}
use tuple_os.Descriptors.{GdtEntry, IdtEntry, gdt_set_entry, idt_set_entry, divisor, divisor_bytes}

-- The base and the limit as the processor puts them together, and the four flag bits.
abbrev pub gdt_base : GdtEntry → ℕ
gdt_base e = e.base_low + e.base_middle * 65536 + e.base_high * 16777216

abbrev pub gdt_limit : GdtEntry → ℕ
gdt_limit e = e.limit_low + e.granularity % 16 * 65536

abbrev pub gdt_flags : GdtEntry → ℕ
gdt_flags e = e.granularity / 16

abbrev pub idt_base : IdtEntry → ℕ
idt_base e = e.base_low + e.base_high * 65536

nibbles_table : holds_below 16 (λ r. holds_below 16 (λ q. bit_or r (q * 16) == r + q * 16)) ≡ true
unfolding holds_below
nibbles_table = refl

nibbles : (r q : ℕ) → r < 16 → q < 16 → bit_or r (q * 16) ≡ r + q * 16
nibbles r q a b = (==_iff _ _).0 (
    holds_below_lem 16 (λ x. bit_or r (x * 16) == r + x * 16) q
      (holds_below_lem 16 (λ y. holds_below 16 (λ x. bit_or y (x * 16) == y + x * 16)) r
        nibbles_table a)
      b)

-- For 32-bit numbers and bytes, an entry that `gdt_set_entry` packs has the base, the low twenty bits of
-- the limit, the high half of the granularity byte and the access byte that it was given.
pub gdt_set_entry_lem :
    (base limit access gran : ℕ)
    → base < u32_mod
    → limit < u32_mod
    → gran < 256
    → let e = gdt_set_entry base limit access gran in
      (gdt_base e ≡ base)
      × (gdt_limit e ≡ limit % 1048576)
      × (gdt_flags e ≡ gran / 16)
      × (e.access ≡ access)
unfolding gdt_set_entry
gdt_set_entry_lem base limit access gran hb hl hg = (
  omega (
    arith,
    bit_and-ones 16 base,
    bit_and-ones 8 (base / 65536),
    bit_and-ones 8 (base / 16777216),
    hb,
  ),
  omega (arith, packed, bit_and-ones 16 limit),
  omega (arith, packed),
  refl,
)
  where
    high : bit_and gran 0xf0 ≡ gran / 16 * 16
    high = omega (arith, bit_and-shifted 4 15 gran, bit_and-ones 4 (gran / 16), hg)

    packed :
        bit_or (bit_and (limit / 65536) 0xf) (bit_and gran 0xf0)
        ≡ limit / 65536 % 16 + gran / 16 * 16
    packed =
        rw (high, bit_and-ones 4 (limit / 65536))
          (nibbles (limit / 65536 % 16) (gran / 16) (omega arith) (omega (arith, hg)))

-- For a 32-bit address, an entry that `idt_set_entry` packs has that address as its handler.
pub idt_set_entry_lem :
    (base selector flags : ℕ) → base < u32_mod → idt_base (idt_set_entry base selector flags) ≡ base
unfolding idt_set_entry
idt_set_entry_lem base selector flags h =
    omega (arith, bit_and-ones 16 base, bit_and-ones 16 (base / 65536), h)

-- The two bytes that `timer_init` sends make up the divisor: the clock's frequency over the one asked for,
-- but at least 1 and at most 65535.
pub divisor_bytes_lem :
    (frequency : ℕ)
    → 0 < frequency
    → let (low, high) = divisor_bytes frequency in
      (low < 256)
      × (high < 256)
      × (low + high * 256 ≡ (
          if ltb 65535 (1193182 / frequency)
          then 65535
          else if ltb (1193182 / frequency) 1
          then 1
          else 1193182 / frequency))
unfolding divisor_bytes divisor
divisor_bytes_lem frequency pos =
    let low = bit_and-ones 8 (divisor frequency) in
    let high = bit_and-ones 8 (divisor frequency / 256) in
    (omega (arith, low), omega (arith, high), ground (arith, low, high))
