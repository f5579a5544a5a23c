-- ===== src/Descriptors.antt =====
-- kernel/gdt.c, kernel/idt.c and kernel/timer.c: the entries of the descriptor tables, the end of an
-- interrupt and the divisor of the timer.
pub mod Fields
use tuple_os.Common.{
  ℕ, ◌+◌, ◌-◌, ◌*◌, ◌/◌, ◌^◌, ◌%◌, bit_and, bit_or, ltb, leb, ◌==◌, ◌&&◌, if◌then◌else◌, List, [],
  ◌∷◌, Option, none, some,
}

-- `struct gdt_entry`
pub record GdtEntry : Type 0 where
  pub limit_low : ℕ
  pub base_low : ℕ
  pub base_middle : ℕ
  pub access : ℕ
  pub granularity : ℕ
  pub base_high : ℕ

-- `struct gdt_ptr`
pub record GdtPtr : Type 0 where
  pub limit : ℕ
  pub base : ℕ

-- The pointer that `gdt_init` loads: the table at this address has three entries of 8 bytes.
pub gdt_pointer : ℕ → GdtPtr
gdt_pointer gdt_addr = record { limit = 8 * 3 - 1; base = gdt_addr }

-- The entry that `gdt_set_entry` writes.
unfoldable pub gdt_set_entry : ℕ → ℕ → ℕ → ℕ → GdtEntry
gdt_set_entry base limit access gran = record {
  base_low = bit_and base 0xffff;
  base_middle = bit_and (base / 2 ^ 16) 0xff;
  base_high = bit_and (base / 2 ^ 24) 0xff;
  limit_low = bit_and limit 0xffff;
  granularity = bit_or (bit_and (limit / 2 ^ 16) 0xf) (bit_and gran 0xf0);
  access = access;
}

-- `struct idt_entry`
pub record IdtEntry : Type 0 where
  pub base_low : ℕ
  pub selector : ℕ
  pub zero : ℕ
  pub flags : ℕ
  pub base_high : ℕ

-- The entry that `idt_set_entry` writes.
unfoldable pub idt_set_entry : ℕ → ℕ → ℕ → IdtEntry
idt_set_entry base selector flags = record {
  base_low = bit_and base 0xffff;
  base_high = bit_and (base / 2 ^ 16) 0xffff;
  selector = selector;
  zero = 0;
  flags = flags;
}

-- The divisor of `timer_init`, for a frequency that is not 0.
unfoldable pub divisor : ℕ → ℕ
divisor frequency =
    let asked = 1193182 / frequency in
    let capped = if ltb 65535 asked then 65535 else asked in if ltb capped 1 then 1 else capped

-- The two bytes that `timer_init` sends to channel 0, the low one first.
unfoldable pub divisor_bytes : ℕ → ℕ × ℕ
divisor_bytes frequency =
    (bit_and (divisor frequency) 0xff, bit_and (divisor frequency / 2 ^ 8) 0xff)

-- The three entries that `gdt_init` writes: none, the code and the data of the kernel.
pub gdt_init : List GdtEntry
gdt_init =
    gdt_set_entry 0 0 0 0
    ∷ gdt_set_entry 0 0xffff_ffff 0x9a 0xcf
    ∷ gdt_set_entry 0 0xffff_ffff 0x92 0xcf
    ∷ []
