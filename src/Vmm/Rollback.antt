-- ===== src/Vmm/Rollback.antt =====
-- kernel/vmm.c: `vmm_map_region` with no slot left in the pool of regions.
use tuple_os.Common.{
  ℕ, ◌+◌, ◌*◌, ◌/◌, ◌%◌, ◌≤◌, ◌≡◌, ◌≢◌, refl, false, some, arith, ◌==◌, u32_mod, bit_and,
  bit_and-page_offset, page_size,
}
use mathlib.Core.Path.{subst}
use tuple_os.Paging.{Machine}
use tuple_os.Paging.Tables.{IsValid}
use tuple_os.Kheap.Frames.{Run}
use tuple_os.Vmm.{
  Vmm, RegionType, machine, with_machine, map_region, record_region, store_region, any_overlaps,
  flags_to_page_flags, undo_frames,
}
use tuple_os.Vmm.Lists.{alloc_full}
use tuple_os.Vmm.Pages.{Pages}
use tuple_os.Vmm.Grant.{IsOutside, map_frames-Mapped}
use tuple_os.Vmm.Undo.{Undone, undo_frames-Undone, Pages-Holds}

-- `record_region` while the pool is used up.
refused :
    (v : Vmm) (at_space vaddr size flags : ℕ) (type : RegionType)
    → 256 ≤ v.region_pool_used
    → record_region v at_space vaddr size flags type
      ≡ (false, with_machine v (undo_frames (size / page_size) 0 vaddr (machine v)))
unfolding record_region store_region
refused v at_space vaddr size flags type full = rw (alloc_full v (ground arith)) refl

-- On valid page tables in the first 4 MB, with the range given by whole pages inside 4 GiB, outside the first
-- 4 MB behind the kernel's base and clear of the regions of a space that is not NULL, with, in the first
-- 4 MB, twice as many frames free in a row as the range has pages, but no slot left in the pool:
-- `vmm_map_region` answers -1 without a fault and changes no space, every page that it had mapped is
-- unmapped, the addresses outside the range keep their translation, and the frames of the pages that
-- `pmm_free_frame` accepts are free again.
pub map_region-Undone :
    (v : Vmm) (at_space vaddr n flags : ℕ) (type : RegionType) (lo hi : ℕ)
    → IsValid (machine v)
    → Run (machine v).pmm lo hi
    → lo + 2 * n ≤ hi
    → hi ≤ 1024
    → vaddr % 4096 ≡ 0
    → vaddr + n * 4096 ≤ u32_mod
    → IsOutside vaddr (n * 4096)
    → at_space ≢ 0
    → any_overlaps vaddr (n * 4096) (v.space at_space).regions ≡ false
    → 256 ≤ v.region_pool_used
    → (v' : Vmm) × (mid : Machine) × (map_region v at_space vaddr (n * 4096) flags type
        ≡ some (false, v'))
      × ((s : ℕ) → v'.space s ≡ v.space s)
      × Pages (machine v) vaddr (vaddr + n * 4096) mid
      × Undone mid vaddr (vaddr + n * 4096) (machine v')
unfolding map_region
map_region-Undone v at_space vaddr n flags type lo hi valid run room reach a fits outside space
      clear full =
    let l =
      map_frames-Mapped n 0 vaddr (flags_to_page_flags flags) (machine v) lo hi valid run room reach
        a refl (omega arith) in
    let count : n * 4096 / page_size ≡ n = omega arith in
    let there : (at_space == 0) ≡ false = ground arith in
    let page : bit_and vaddr 0xfff ≡ 0 = omega (arith, bit_and-page_offset vaddr) in
    let pages : bit_and (n * 4096) 0xfff ≡ 0 = omega (arith, bit_and-page_offset (n * 4096)) in
    let begin : vaddr + 0 ≡ vaddr = omega arith in
    let stored = refused (with_machine v l.after) at_space vaddr (n * 4096) flags type full in
    let undone =
      undo_frames-Undone n 0 vaddr l.after a refl (omega arith)
        (Pages-Holds (machine v) _ _ l.after l.pages) in
    (
      with_machine v (undo_frames n 0 vaddr l.after),
      l.after,
      rw (count, there, page, pages, clear, l.runs, stored, count) refl,
      λ s. refl,
      subst (λ x. Pages (machine v) x (x + n * 4096) l.after) begin l.pages,
      subst (λ x. Undone l.after x (x + n * 4096) (undo_frames n 0 vaddr l.after)) begin undone,
    )
