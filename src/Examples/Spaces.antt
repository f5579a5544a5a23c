-- ===== src/Examples/Spaces.antt =====
-- The theorems on kernel/vmm.c at a concrete address space.
use tuple_os.Common.{
  inl, ℕ, ◌==◌, if◌then◌else◌, none, true, false, Bool, ltb, ◌||◌, ◌+◌, ◌*◌, ◌≡◌, ◌<◌, ◌≤◌, refl,
  arith, some, page_up, page_up_lem, [], ◌∷◌,
}
use tuple_os.Pmm
use tuple_os.Paging
use tuple_os.Vmm.Lists.{IsApart, MapOutcome, map_region-MapOutcome, map_region-IsApart}
use tuple_os.Vmm.{
  Region, init, Vmm, map_region, map_frames, zero_page, any_overlaps, overlaps, record_region,
  store_region, alloc_region, flags_to_page_flags, RegionType,
}
use tuple_os.Vmm.Spaces.{unmap_region, find_free_region, find_gap}
use tuple_os.Common.{holds_below, holds_below_lem}
use tuple_os.Pmm.Bitmap.{is_free}
use tuple_os.Kheap.Frames.{Run}
use tuple_os.Vmm.Pages.{Pages}
use tuple_os.Vmm.Fault.{map_region_faults}
use tuple_os.Pmm.{Pmm, alloc_frame}
use tuple_os.Paging.{or_null}
use tuple_os.Vmm.Cycle.{unmap_region-map_region}
use tuple_os.Vmm.Rollback.{map_region-Undone}
use tuple_os.Vmm.Undo.{Undone}
use tuple_os.Paging.{Machine}
use tuple_os.Vmm.Grant.{map_region-Pages}
use tuple_os.Examples.Memory.{machine-IsValid}
use tuple_os.Vmm.Layout.{init_regions, layout}
use tuple_os.Vmm.Regions.{Apart, Contains, Member, here}
use tuple_os.Vmm.Gaps.{IsFound, find_free_region_lem, find_free_region_overlap}
use tuple_os.Examples.{frames, frames-IsBytes, machine, vmm, region}

region-Apart : Apart 0 (region ∷ [])
region-Apart = (omega arith, omega arith, omega arith, tt)

gap : find_free_region vmm 0xc030_0000 0x3000 0x40_0000 ≡ 0x40_2000
unfolding find_free_region find_gap page_up
gap = refl

find_free_region_lem_example :
    (¬ Contains region (find_free_region vmm 0xc030_0000 0x3000 0x40_0000))
    × IsFound (find_free_region vmm 0xc030_0000 0x3000 0x40_0000) (page_up 0x3000) region
find_free_region_lem_example =
    find_free_region_lem vmm 0xc030_0000 0x3000 0x40_0000 region region-Apart (omega arith)
      (omega arith) (λ e. omega (arith, e, gap)) (omega (arith, gap, page_up_lem 0x3000)) here

find_free_region_overlap_example :
    (find_free_region vmm 0xc030_0000 (3 * 4096) (1023 * 4096) ≡ 1023 * 4096)
    × (1023 * 4096 < region.base)
    × (region.base < 1023 * 4096 + 3 * 4096)
find_free_region_overlap_example =
    find_free_region_overlap vmm 0xc030_0000 3 1023 region (λ e. omega (arith, e)) refl
      (omega arith) (omega arith) (omega arith) (omega arith)

vmm-IsApart : IsApart vmm
vmm-IsApart s = region-Apart

-- The space after one more page at 8 MB.
abbrev grown : Vmm
grown = elim (map_region vmm 0xc030_0000 0x80_0000 0x1000 3 RegionType.user_data) [
  | none ↦ vmm
  | some r ↦ r.1
]

grown_runs : map_region vmm 0xc030_0000 0x80_0000 0x1000 3 RegionType.user_data ≡ some (true, grown)
unfolding map_region map_frames zero_page any_overlaps overlaps record_region store_region
    alloc_region flags_to_page_flags Pmm.alloc_frame Pmm.bitmap_first_free Pmm.scan_bytes
    Pmm.first_clear_bit Paging.map_page Paging.ensure_table Paging.add_table Paging.write_entry
    Paging.get_physical Pmm.bitmap_set
grown_runs = refl

map_region-MapOutcome_example :
    MapOutcome vmm 0xc030_0000 0x80_0000 0x1000 3 RegionType.user_data true grown
map_region-MapOutcome_example =
    map_region-MapOutcome vmm 0xc030_0000 0x80_0000 0x1000 3 RegionType.user_data true grown
      region-Apart (omega arith) grown_runs

map_region-IsApart_example : IsApart grown
map_region-IsApart_example =
    map_region-IsApart vmm 0xc030_0000 0x80_0000 0x1000 3 RegionType.user_data true grown
      vmm-IsApart (omega arith) (omega arith) grown_runs

-- The manager before anything is recorded.
abbrev unused : Vmm
unused = record vmm { region_pool_used = 0 }

init_regions_example :
    let regions = ((init 0xc010_5000 unused).space 0xc030_0000).regions in
    (regions ≡ layout (page_up 0xc010_5000))
    × Apart 0 regions
    × ((a : ℕ) → 0xc000_1000 ≤ a → a < 0xc140_0000 → (r : Region) × Member r regions × Contains r a)
init_regions_example =
    init_regions 0xc010_5000 unused refl (omega (arith, page_up_lem 0xc010_5000))
      (omega (arith, page_up_lem 0xc010_5000))

-- The frames from sixteen on.
abbrev unused_frame : ℕ → Bool
unused_frame g = ltb g 16 || is_free frames.bitmap g

unused_table : holds_below 64 unused_frame ≡ true
unfolding is_free Pmm.bitmap_test holds_below
unused_table = refl

null_used : is_free frames.bitmap 0 ≡ false
unfolding is_free Pmm.bitmap_test
null_used = refl

frames-Run : Run frames 16 64
frames-Run = record {
  bytes = frames-IsBytes;
  counted = omega arith;
  null = null_used;
  free = λ g a b. ground (arith, holds_below_lem 64 unused_frame g unused_table b);
  reach = omega arith;
}

clear : any_overlaps 0x80_0000 0x3000 (region ∷ []) ≡ false
unfolding any_overlaps overlaps
clear = refl

map_region-Pages_example :
    (v' : Vmm) × (map_region vmm 0xc030_0000 0x80_0000 0x3000 3 RegionType.user_data
      ≡ some (true, v'))
    × Pages machine 0x80_0000 0x80_3000 v'.heap.machine
map_region-Pages_example =
    map_region-Pages vmm 0xc030_0000 0x80_0000 3 3 RegionType.user_data 16 64 machine-IsValid
      frames-Run (omega arith) (omega arith) refl (omega arith) (inl (omega arith))
      (λ e. omega (arith, e)) clear (omega arith)

unmap_region-map_region_example :
    (v1 : Vmm) × (v2 : Vmm) × (map_region vmm 0xc030_0000 0x80_0000 0x3000 3 RegionType.user_data
      ≡ some (true, v1))
    × (unmap_region v1 0xc030_0000 0x80_0000 ≡ (true, v2))
    × ((s : ℕ) → (v2.space s).regions ≡ (vmm.space s).regions)
    × Pages machine 0x80_0000 0x80_3000 v1.heap.machine
    × Undone v1.heap.machine 0x80_0000 0x80_3000 v2.heap.machine
unmap_region-map_region_example =
    unmap_region-map_region vmm 0xc030_0000 0x80_0000 3 3 RegionType.user_data 16 64 machine-IsValid
      frames-Run (omega arith) (omega arith) refl (omega arith) (inl (omega arith))
      (λ e. omega (arith, e)) clear (omega arith) (omega arith) (omega arith) region-Apart
      ((λ e. omega (arith, e)), tt)

-- No slot is left.
abbrev crowded : Vmm
crowded = record vmm { region_pool_used = 256 }

map_region-Undone_example :
    (v' : Vmm) × (mid : Machine) × (map_region crowded 0xc030_0000 0x80_0000 0x3000 3
        RegionType.user_data
      ≡ some (false, v'))
    × ((s : ℕ) → v'.space s ≡ crowded.space s)
    × Pages machine 0x80_0000 0x80_3000 mid
    × Undone mid 0x80_0000 0x80_3000 v'.heap.machine
map_region-Undone_example =
    map_region-Undone crowded 0xc030_0000 0x80_0000 3 3 RegionType.user_data 16 64 machine-IsValid
      frames-Run (omega arith) (omega arith) refl (omega arith) (inl (omega arith))
      (λ e. omega (arith, e)) clear (omega arith)

-- One frame is left, and no page table is there.
abbrev scarce : Vmm
scarce = record vmm {
  heap = record vmm.heap {
    machine = record machine {
      pmm = record {
        bitmap = λ i. if i == 1 then 127 else 255;
        total_frames = 16;
        used_frames = 15;
      };
    };
  };
}

abbrev exhausted : Pmm
exhausted = (alloc_frame scarce.heap.machine.pmm).1

last_frame : alloc_frame scarce.heap.machine.pmm ≡ (some 0xf000, exhausted)
unfolding alloc_frame Pmm.bitmap_first_free Pmm.scan_bytes Pmm.first_clear_bit
last_frame = refl

no_frame : or_null (alloc_frame exhausted).0 ≡ 0
unfolding alloc_frame Pmm.bitmap_first_free Pmm.scan_bytes Pmm.first_clear_bit Pmm.bitmap_set
no_frame = refl

one_page_clear : any_overlaps 0x80_0000 0x1000 (region ∷ []) ≡ false
unfolding any_overlaps overlaps
one_page_clear = refl

map_region_faults_example :
    map_region scarce 0xc030_0000 0x80_0000 0x1000 3 RegionType.user_data ≡ none
map_region_faults_example =
    map_region_faults scarce 0xc030_0000 0x80_0000 0 3 RegionType.user_data 0xf000 exhausted
      last_frame (λ e. omega (arith, e)) no_frame refl refl (omega arith) (λ e. omega (arith, e))
      one_page_clear
