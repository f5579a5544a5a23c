-- ===== src/Paging/Entries.antt =====
-- kernel/paging.c: the bits of directory and table entries as arithmetic.
use tuple_os.Common.{
  ℕ, ◌/◌, ◌%◌, ◌<◌, ◌≡◌, bit_and, bit_or, arith, u32_mod, page_mask, bit_and-page_mask,
  bit_and-page_offset,
}
use tuple_os.Common.Bits.{
  bit_or-div, bit_or-lt, bit_or_digit, bit_or-zero, bit_and-ones, bit_and-shifted,
}
use tuple_os.Paging.{page_entry}

pub present_bit : (w : ℕ) → bit_and w 1 ≡ w % 2
present_bit w = bit_and-ones 1 w

-- `|` with flags below 4096 keeps the address bits.
pub or_flags-div : (w flags : ℕ) → flags < 4096 → bit_or w flags / 4096 ≡ w / 4096
or_flags-div w flags h =
    let none_left : flags / 4096 ≡ 0 = omega arith in
    ground (arith, bit_or-div 12 w flags, bit_or-zero (w / 4096))

pub or_flags-lt : (w flags : ℕ) → w < u32_mod → flags < 4096 → bit_or w flags < u32_mod
or_flags-lt w flags hw hf = bit_or-lt 32 w flags hw (omega arith)

pub or_one-odd : (w : ℕ) → bit_or w 1 % 2 ≡ 1
or_one-odd w = omega (arith, bit_or_digit w 1)

pub or_odd : (w flags : ℕ) → w % 2 ≡ 1 → bit_or w flags % 2 ≡ 1
or_odd w flags h = omega (arith, bit_or_digit w flags)

-- What a reader sees of the entry that `paging_map_page` writes.
pub page_entry_lem :
    (p flags : ℕ)
    → p < u32_mod
    → (page_entry p flags < u32_mod)
      × (page_entry p flags / 4096 ≡ p / 4096)
      × (page_entry p flags % 2 ≡ 1)
page_entry_lem p flags h =
    let base : ℕ = bit_and p page_mask in
    let low : ℕ = bit_and flags 0xfff in
    let small : low < 4096 = omega (arith, bit_and-page_offset flags) in
    let fits : base < u32_mod = omega (arith, bit_and-page_mask p h) in
    (
      or_flags-lt (bit_or base low) 1 (or_flags-lt base low fits small) (omega arith),
      omega (
        arith,
        or_flags-div (bit_or base low) 1 (omega arith),
        or_flags-div base low small,
        bit_and-page_mask p h,
      ),
      or_one-odd (bit_or base low),
    )

-- The directory entry for a new table.
abbrev pub table_entry : ℕ → ℕ → ℕ
table_entry t flags = bit_or (bit_or (bit_or t 1) 2) (bit_and flags 4)

bit_and_four-lt : (flags : ℕ) → bit_and flags 4 < 4096
bit_and_four-lt flags = omega (arith, bit_and-shifted 2 1 flags, bit_and-ones 1 (flags / 4))

pub table_entry_lem :
    (t flags : ℕ)
    → t < u32_mod
    → (table_entry t flags < u32_mod)
      × (table_entry t flags / 4096 ≡ t / 4096)
      × (table_entry t flags % 2 ≡ 1)
table_entry_lem t flags h =
    let user : bit_and flags 4 < 4096 = bit_and_four-lt flags in
    let one : bit_or t 1 < u32_mod = or_flags-lt t 1 h (omega arith) in
    let two : bit_or (bit_or t 1) 2 < u32_mod = or_flags-lt (bit_or t 1) 2 one (omega arith) in
    (
      or_flags-lt (bit_or (bit_or t 1) 2) (bit_and flags 4) two user,
      omega (
        arith,
        or_flags-div (bit_or (bit_or t 1) 2) (bit_and flags 4) user,
        or_flags-div (bit_or t 1) 2 (omega arith),
        or_flags-div t 1 (omega arith),
      ),
      or_odd (bit_or (bit_or t 1) 2) (bit_and flags 4) (or_odd (bit_or t 1) 2 (or_one-odd t)),
    )
