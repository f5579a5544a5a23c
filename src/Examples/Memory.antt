-- ===== src/Examples/Memory.antt =====
-- The theorems on kernel/pmm.c and kernel/paging.c at concrete states.
use tuple_os.Common.{
  ℕ, ◌+◌, ◌*◌, ◌/◌, ◌%◌, ◌<◌, ◌≡◌, ◌≢◌, ◌↔◌, ap, refl, true, false, arith, ◌==◌, ◌&&◌,
  if◌then◌else◌, some, u32_mod,
}
use tuple_os.Pmm
use tuple_os.Pmm.{Pmm, bitmap_first_free, alloc_frame, free_frame, bitmap_bytes}
use tuple_os.Pmm.Bitmap.{is_free, IsBytes}
use tuple_os.Pmm.Frames.{Allocates, alloc_frame-Allocates}
use tuple_os.Pmm.Reuse.{done, alloc, free, free-alloc, alloc_frame_misses, free_frame_past_bitmap}
use tuple_os.Pmm.Walk.{Covered, IsMapped, init_frees_exactly}
use tuple_os.Paging.{or_null, map_page, unmap_page, get_physical}
use tuple_os.Paging
use tuple_os.Paging.Start.{get_physical-init}
use tuple_os.Paging.Tables.{IsValid}
use tuple_os.Paging.Mapping.{can_map, get_physical-map_page, get_physical-unmap_page}
use tuple_os.Examples.{
  frames, frames-IsBytes, full, full-IsBytes, overrun, overrun-IsBytes, entry_at, boot_info,
  machine,
}

alloc_frame-Allocates_example : Allocates frames (alloc_frame frames).0 (alloc_frame frames).1
alloc_frame-Allocates_example = alloc_frame-Allocates frames frames-IsBytes (omega arith)

-- `pmm_alloc_frame` answers frame sixteen.
first_frame : (alloc_frame frames).0 ≡ some 0x1_0000
unfolding alloc_frame bitmap_first_free Pmm.scan_bytes Pmm.first_clear_bit
first_frame = refl

free-alloc_example :
    let q = free_frame (alloc_frame frames).1 0x1_0000 in
    ((g : ℕ) → is_free q.bitmap g ≡ is_free frames.bitmap g)
    × (q.used_frames ≡ 16)
    × (q.total_frames ≡ 64)
free-alloc_example =
    free-alloc frames 0x1_0000 frames-IsBytes (omega arith) (omega arith) first_frame

beyond_limit_free : is_free full.bitmap 66 ≡ true
unfolding is_free Pmm.bitmap_test
beyond_limit_free = refl

alloc_frame_misses_example :
    (is_free (alloc_frame (free_frame full 0x5000)).1.bitmap 66 ≡ true)
    × ((addr : ℕ)
        → (alloc_frame (alloc_frame (free_frame full 0x5000)).1).0 ≡ some addr
        → addr / 4096 ≢ 66)
alloc_frame_misses_example =
    alloc_frame_misses full 66 (alloc_frame (free_frame full 0x5000)).1 full-IsBytes (omega arith)
      (omega arith) beyond_limit_free (free 0x5000 (alloc done))

last_used : is_free overrun.bitmap (0x801_0000 / 4096) ≡ false
unfolding is_free Pmm.bitmap_test
last_used = refl

free_frame_past_bitmap_example :
    (free_frame overrun 0x801_0000).bitmap bitmap_bytes ≢ overrun.bitmap bitmap_bytes
free_frame_past_bitmap_example =
    free_frame_past_bitmap overrun 0x801_0000 overrun-IsBytes (omega arith) (omega arith) last_used

boot_info-IsMapped : IsMapped entry_at boot_info
boot_info-IsMapped = record {
  available = ground arith;
  forward = λ a h. omega arith;
  fits = λ a t. omega arith;
  begins = λ a t. omega arith;
}

init_frees_exactly_example :
    (q : Pmm) × (Pmm.init entry_at boot_info 0xc010_5000 frames ≡ some q)
    × IsBytes q.bitmap
    × ((g : ℕ)
        → g < bitmap_bytes * 8
        → (is_free q.bitmap g ≡ true) ↔ Covered entry_at boot_info 0xc010_5000 g)
init_frees_exactly_example =
    init_frees_exactly entry_at boot_info 0xc010_5000 frames frames-IsBytes boot_info-IsMapped

pub machine-IsValid : IsValid machine
machine-IsValid = record {
  bytes = frames-IsBytes;
  small = omega arith;
  entries = λ i. omega arith;
  words = λ f k. omega arith;
  tables_used = λ i a h. absurd (ground arith);
  distinct = λ i j a b h. absurd (ground arith);
  near = λ i a h. absurd (ground arith);
  running = refl;
}

get_physical-map_page_example :
    IsValid (map_page machine 0x40_0123 0x7_0000 3)
    × ((w : ℕ)
        → w < u32_mod
        → get_physical (map_page machine 0x40_0123 0x7_0000 3) w ≡ (
            if can_map machine 0x40_0123 && (0x40_0123 / 4096 == w / 4096)
            then 0x7_0000 / 4096 * 4096 + w % 4096
            else get_physical machine w))
get_physical-map_page_example =
    get_physical-map_page machine 0x40_0123 0x7_0000 3 machine-IsValid (omega arith) (omega arith)
      (λ _. omega (arith, ap or_null first_frame))

get_physical-unmap_page_example :
    IsValid (unmap_page machine 0x40_0123)
    × ((w : ℕ)
        → w < u32_mod
        → get_physical (unmap_page machine 0x40_0123) w
          ≡ (if 0x40_0123 / 4096 == w / 4096 then 0 else get_physical machine w))
get_physical-unmap_page_example =
    get_physical-unmap_page machine 0x40_0123 machine-IsValid (omega arith)

get_physical-init_example : get_physical (Paging.init machine) 0xc012_3456 ≡ 0x12_3456
get_physical-init_example =
    get_physical-init machine 0xc012_3456
      (record { aligned = refl; low = omega arith; high = omega arith }) (omega arith)
