-- ===== src/Pmm.antt =====
-- kernel/pmm.c: the physical frame allocator over a bitmap.
pub mod Bitmap
pub mod Scan
pub mod Frames
pub mod Reuse
pub mod Init
pub mod Walk
use tuple_os.Common.{
  ℕ, zero, suc, ◌+◌, ◌-◌, ◌*◌, ◌/◌, ◌%◌, ◌^◌, bit_and, bit_or, Bool, ◌||◌, Option, none, some, ltb,
  leb, ◌==◌, if◌then◌else◌, add32, sub32, mul32, page_size, page_up, update, fill_with,
}

-- The statics of pmm.c. `bitmap` is the memory from `frame_bitmap` on, a byte a cell: the array has
-- `bitmap_bytes` cells, and a cell behind them is whatever the linker put there.
pub record Pmm : Type 0 where
  pub bitmap : ℕ → ℕ
  pub total_frames : ℕ
  pub used_frames : ℕ

abbrev pub max_frames : ℕ
max_frames = 32786

abbrev pub bitmap_bytes : ℕ
bitmap_bytes = max_frames / 8

-- `byte |= 1 << k`, `byte &= ~(1 << k)` and `byte & (1 << k)` for k < 8
abbrev pub byte_set : ℕ → ℕ → ℕ
byte_set b k = bit_or b (2 ^ k) % 256

abbrev pub byte_clear : ℕ → ℕ → ℕ
byte_clear b k = bit_and b (255 - 2 ^ k)

abbrev pub byte_test : ℕ → ℕ → ℕ
byte_test b k = bit_and b (2 ^ k)

unfoldable pub bitmap_set : (ℕ → ℕ) → ℕ → ℕ → ℕ
bitmap_set m frame = update m (frame / 8) (byte_set (m (frame / 8)) (frame % 8))

unfoldable pub bitmap_clear : (ℕ → ℕ) → ℕ → ℕ → ℕ
bitmap_clear m frame = update m (frame / 8) (byte_clear (m (frame / 8)) (frame % 8))

unfoldable pub bitmap_test : (ℕ → ℕ) → ℕ → ℕ
bitmap_test m frame = byte_test (m (frame / 8)) (frame % 8)

-- The inner loop of `bitmap_first_free`, with `n` rounds left at bit `j`.
unfoldable pub first_clear_bit : ℕ → ℕ → ℕ → Option ℕ
first_clear_bit zero j b = none
first_clear_bit (suc n) j b =
    let rest = first_clear_bit n (j + 1) b in if byte_test b j == 0 then some j else rest

-- The outer loop, with `n` bytes left at byte `i`.
unfoldable pub scan_bytes : ℕ → ℕ → (ℕ → ℕ) → Option ℕ
scan_bytes zero i m = none
scan_bytes (suc n) i m =
    let rest = scan_bytes n (i + 1) m in
    if m i == 0xff
    then rest
    else elim (first_clear_bit 8 0 (m i)) [ some j ↦ some (i * 8 + j) | none ↦ rest ]

-- `none` is the -1 of the source.
unfoldable pub bitmap_first_free : Pmm → Option ℕ
bitmap_first_free p = scan_bytes (p.total_frames / 8) 0 p.bitmap

-- The address of the frame, or `none` for NULL.
unfoldable pub alloc_frame : Pmm → Option ℕ × Pmm
alloc_frame p = elim (bitmap_first_free p) [
  | none ↦ (none, p)
  | some frame ↦ (
    some (mul32 frame page_size),
    record p { bitmap = bitmap_set p.bitmap frame; used_frames = add32 p.used_frames 1 },
  )
]

unfoldable pub free_frame : Pmm → ℕ → Pmm
free_frame p frame_addr =
    let frame = frame_addr / page_size in
    if leb max_frames frame
    then p
    else if bitmap_test p.bitmap frame == 0
    then p
    else record p { bitmap = bitmap_clear p.bitmap frame; used_frames = sub32 p.used_frames 1 }

pub get_total_memory : Pmm → ℕ
get_total_memory p = mul32 p.total_frames page_size

unfoldable pub get_free_memory : Pmm → ℕ
get_free_memory p = mul32 (sub32 p.total_frames p.used_frames) page_size

-- `multiboot_mmap_entry_t`
pub record MmapEntry : Type 0 where
  pub size : ℕ
  pub base_addr : ℕ
  pub length : ℕ
  pub type : ℕ

-- The fields of `multiboot_info_t` that `pmm_init` reads.
pub record MultibootInfo : Type 0 where
  pub flags : ℕ
  pub mmap_length : ℕ
  pub mmap_addr : ℕ

-- The loop that marks every frame used.
unfoldable pub fill_used : (ℕ → ℕ) → ℕ → ℕ
fill_used m = fill_with bitmap_bytes 0 (λ _. 0xff) m

-- The body of the loop over the frames of one region, and the loop with `n` rounds left.
unfoldable pub mark_frame : ℕ → ℕ → Pmm → Pmm
mark_frame frame kernel_end p =
    let addr = mul32 frame page_size in
    if ltb addr 0x10_0000 || ltb addr kernel_end
    then p
    else record p { bitmap = bitmap_clear p.bitmap frame; total_frames = add32 p.total_frames 1 }

unfoldable pub mark_frames : ℕ → ℕ → ℕ → Pmm → Pmm
mark_frames zero frame kernel_end p = p
mark_frames (suc n) frame kernel_end p =
    mark_frames n (frame + 1) kernel_end (mark_frame frame kernel_end p)

-- The casts to `uint32_t` drop the high half of the address and of the length.
abbrev pub start_frame : MmapEntry → ℕ
start_frame e = sub32 (add32 (e.base_addr % 2 ^ 32) page_size) 1 / page_size

abbrev pub end_frame : MmapEntry → ℕ
end_frame e = add32 (e.base_addr % 2 ^ 32) (e.length % 2 ^ 32) / page_size

abbrev pub lower : ℕ → ℕ → ℕ
lower a b = if ltb a b then a else b

unfoldable pub mark_entry : MmapEntry → ℕ → Pmm → Pmm
mark_entry e kernel_end p =
    if e.type == 1
    then mark_frames (lower (end_frame e) max_frames - start_frame e) (start_frame e) kernel_end p
    else p

-- The walk over the memory map; `entry_at` is the boot loader's memory. `none`: the fuel ran out.
unfoldable pub walk_mmap : ℕ → (ℕ → MmapEntry) → ℕ → ℕ → ℕ → Pmm → Option Pmm
walk_mmap zero entry_at mmap mmap_end kernel_end p = none
walk_mmap (suc n) entry_at mmap mmap_end kernel_end p =
    let rest =
      walk_mmap n entry_at (add32 (add32 mmap (entry_at mmap).size) 4) mmap_end kernel_end
        (mark_entry (entry_at mmap) kernel_end p) in
    if ltb mmap mmap_end then rest else some p

-- `kernel_symbol` is the address that the linker gives `_kernel_end`.
unfoldable pub init : (ℕ → MmapEntry) → MultibootInfo → ℕ → Pmm → Option Pmm
init entry_at mbi kernel_symbol p =
    let kernel_end = page_up (sub32 kernel_symbol 0xc000_0000) in
    let cleared = record p { bitmap = fill_used p.bitmap } in
    if bit_and mbi.flags 64 == 0
    then some cleared
    else walk_mmap (mbi.mmap_length + 1) entry_at mbi.mmap_addr
        (add32 mbi.mmap_addr mbi.mmap_length) kernel_end cleared
