-- ===== src/Vmm/Fault.antt =====
-- kernel/vmm.c: `vmm_map_region` while one last frame is free.
use tuple_os.Common.{
  ℕ, suc, ◌*◌, ◌/◌, ◌%◌, ◌<◌, ◌≡◌, ◌≢◌, refl, true, false, none, some, arith, ◌==◌, u32_mod, add32,
  bit_and, bit_and-page_offset, page_size,
}
use tuple_os.Pmm
use tuple_os.Pmm.{Pmm}
use tuple_os.Paging.{
  Machine, or_null, is_absent, pd_index, map_page, ensure_table, add_table, get_physical,
}
use tuple_os.Vmm.{
  Vmm, RegionType, machine, zero_page, map_frames, map_region, any_overlaps, flags_to_page_flags,
}

-- Without a frame for a table, `paging_map_page` maps nothing.
map_page_unmapped :
    (m : Machine) (v p flags : ℕ)
    → is_absent (m.page_directory (pd_index v)) ≡ true
    → or_null (Pmm.alloc_frame m.pmm).0 ≡ 0
    → get_physical (map_page m v p flags) v ≡ 0
unfolding map_page ensure_table add_table get_physical
map_page_unmapped m v p flags absent dry =
    let null : (or_null (Pmm.alloc_frame m.pmm).0 == 0) ≡ true = ground (arith, dry) in
    rw (absent, null, absent) refl

zero_page_faults : (m : Machine) (v : ℕ) → get_physical m v ≡ 0 → zero_page m v ≡ none
unfolding zero_page
zero_page_faults m v e = rw e refl

map_frames_faults :
    (n vaddr flags t : ℕ) (m : Machine) (q : Pmm)
    → Pmm.alloc_frame m.pmm ≡ (some t, q)
    → t ≢ 0
    → or_null (Pmm.alloc_frame q).0 ≡ 0
    → is_absent (m.page_directory (pd_index vaddr)) ≡ true
    → vaddr < u32_mod
    → map_frames (suc n) 0 vaddr flags m ≡ none
unfolding map_frames
map_frames_faults n vaddr flags t m q last frame dry absent small =
    let there : (t == 0) ≡ false = ground (arith, frame) in
    let at : add32 vaddr 0 ≡ vaddr = omega arith in
    let fault =
      zero_page_faults _ vaddr
        (map_page_unmapped (record m { pmm = q }) vaddr t flags absent dry) in
    rw (last, there, at, fault) refl

-- Where `pmm_alloc_frame` gives a frame and then no other, and the directory has no table for the range,
-- `vmm_map_region` on a range of at least one whole page, clear of the regions of a space that is not
-- NULL, neither maps the range nor refuses it: its zeroing of the first page is a page fault.
pub map_region_faults :
    (v : Vmm) (at_space vaddr n flags : ℕ) (type : RegionType) (t : ℕ) (q : Pmm)
    → Pmm.alloc_frame (machine v).pmm ≡ (some t, q)
    → t ≢ 0
    → or_null (Pmm.alloc_frame q).0 ≡ 0
    → is_absent ((machine v).page_directory (pd_index vaddr)) ≡ true
    → vaddr % 4096 ≡ 0
    → vaddr < u32_mod
    → at_space ≢ 0
    → any_overlaps vaddr (suc n * 4096) (v.space at_space).regions ≡ false
    → map_region v at_space vaddr (suc n * 4096) flags type ≡ none
unfolding map_region
map_region_faults v at_space vaddr n flags type t q last frame dry absent a small space clear =
    let count : suc n * 4096 / page_size ≡ suc n = omega arith in
    let there : (at_space == 0) ≡ false = ground arith in
    let page : bit_and vaddr 0xfff ≡ 0 = omega (arith, bit_and-page_offset vaddr) in
    let pages : bit_and (suc n * 4096) 0xfff ≡ 0 =
      omega (arith, bit_and-page_offset (suc n * 4096)) in
    let fault =
      map_frames_faults n vaddr (flags_to_page_flags flags) t (machine v) q last frame dry absent
        small in
    rw (count, there, page, pages, clear, fault) refl
