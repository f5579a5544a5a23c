-- ===== src/Common/Words.antt =====
-- uint32_t arithmetic, and the masks of the sources as arithmetic.
use tuple_os.Common.Bits.{bit_and-ones, bit_and-shifted}
use Prim.Native.Nat.{ℕ, ◌+◌, ◌-◌, ◌*◌, ◌/◌, ◌%◌, ◌<◌, bit_and}
use mathlib.Core.Path.{◌≡◌}
use native.Mathlib.Omega.{arith}

abbrev pub u32_mod : ℕ
u32_mod = 0x1_0000_0000

abbrev pub add32 : ℕ → ℕ → ℕ
add32 a b = (a + b) % u32_mod

-- `-` on ℕ stops at 0, so the modulus goes first; the second operand is below it.
abbrev pub sub32 : ℕ → ℕ → ℕ
sub32 a b = (a + u32_mod - b) % u32_mod

abbrev pub mul32 : ℕ → ℕ → ℕ
mul32 a b = a * b % u32_mod

abbrev pub page_size : ℕ
page_size = 4096

-- `(uint32_t)~(PAGE_SIZE - 1)`
abbrev pub page_mask : ℕ
page_mask = 0xffff_f000

-- `(x + PAGE_SIZE - 1) & ~(PAGE_SIZE - 1)`
unfoldable pub page_up : ℕ → ℕ
page_up x = bit_and (sub32 (add32 x page_size) 1) page_mask

pub bit_and-page_offset : (x : ℕ) → bit_and x 0xfff ≡ x % 4096
bit_and-page_offset x = bit_and-ones 12 x

pub bit_and-table_index : (x : ℕ) → bit_and x 0x3ff ≡ x % 1024
bit_and-table_index x = bit_and-ones 10 x

pub bit_and-page_mask : (x : ℕ) → x < u32_mod → bit_and x page_mask ≡ x / 4096 * 4096
bit_and-page_mask x h = omega (arith, bit_and-shifted 12 0xf_ffff x, bit_and-ones 20 (x / 4096))

pub page_up_lem : (x : ℕ) → page_up x ≡ (x + 4095) % u32_mod / 4096 * 4096
unfolding page_up
page_up_lem x = omega (arith, bit_and-page_mask (sub32 (add32 x page_size) 1) (omega arith))
