-- ===== src/Vmm/Spaces.antt =====
-- kernel/vmm.c: lookups, unmapping, and the life of an address space.
use tuple_os.Common.{
  ℕ, zero, suc, ◌+◌, ◌-◌, ◌/◌, bit_and, Bool, true, false, Option, none, some, ltb, leb, ◌==◌, ◌&&◌,
  ◌||◌, not, if◌then◌else◌, add32, page_size, page_mask, page_up, update, List, [], ◌∷◌,
}
use tuple_os.Pmm
use tuple_os.Paging
use tuple_os.Paging.{Machine, or_null}
use tuple_os.Kheap
use tuple_os.Kheap.{Heap}
use tuple_os.Vmm.{
  Vmm, Region, ordinal, machine, with_machine, remove_region, register_existing_region,
}

-- The region that begins at this exact address.
unfoldable pub region_at : ℕ → List Region → Option Region
region_at vaddr [] = none
region_at vaddr (x ∷ xs) = if x.base == vaddr then some x else region_at vaddr xs

-- The loop of `vmm_unmap_region` with `n` pages left; a page that is not mapped is passed over.
unfoldable pub unmap_frames : ℕ → ℕ → ℕ → Machine → Machine
unmap_frames zero offset base m = m
unmap_frames (suc n) offset base m =
    let addr = add32 base offset in
    let phys = Paging.get_physical m addr in
    let unmapped = Paging.unmap_page m addr in
    unmap_frames n (offset + page_size) base (
      if phys == 0
      then m
      else record unmapped { pmm = Pmm.free_frame unmapped.pmm (bit_and phys page_mask) })

-- The rounds of `for (offset = 0; offset < size; offset += PAGE_SIZE)`
abbrev pub page_count : ℕ → ℕ
page_count size = (size + 4095) / page_size

-- `vmm_unmap_region` on the region that it has found; true stands for 0 and false for -1.
unfoldable pub unmap_found : Vmm → ℕ → Region → Bool × Vmm
unmap_found v at_space r = if leb (ordinal r.type) 5 then (false, v) else (
  true,
  record v {
    heap = record v.heap { machine = unmap_frames (page_count r.size) 0 r.base (machine v) };
    space = update v.space at_space (remove_region (v.space at_space) r.slot);
  },
)

unfoldable pub unmap_region : Vmm → ℕ → ℕ → Bool × Vmm
unmap_region v at_space vaddr =
    if at_space == 0 then (false, v) else elim (region_at vaddr (v.space at_space).regions) [
      | none ↦ (false, v)
      | some r ↦ unmap_found v at_space r
    ]

-- The base of the region behind, or the end of the address space.
abbrev pub next_base : List Region → ℕ
next_base [] = 0xffff_f000
next_base (x ∷ xs) = x.base

-- The address that the search goes on with after it has met the region `x`.
abbrev pub skip : Region → ℕ → ℕ
skip x candidate =
    if leb x.base candidate && ltb candidate (add32 x.base x.size)
    then page_up (add32 x.base x.size)
    else candidate

-- The walk of `vmm_find_free_region`; 0 when it has found nothing.
unfoldable pub find_gap : ℕ → ℕ → List Region → ℕ
find_gap size candidate [] = 0
find_gap size candidate (x ∷ xs) =
    let rest = find_gap size (skip x candidate) xs in
    if leb (add32 (skip x candidate) size) (next_base xs) then skip x candidate else rest

unfoldable pub find_free_region : Vmm → ℕ → ℕ → ℕ → ℕ
find_free_region v at_space size start_hint =
    if at_space == 0
    then 0
    else find_gap (page_up size) (page_up (if start_hint == 0 then 0xd000_0000 else start_hint))
        (v.space at_space).regions

unfoldable pub find_in : ℕ → List Region → Option Region
find_in vaddr [] = none
find_in vaddr (x ∷ xs) =
    if leb x.base vaddr && ltb vaddr (add32 x.base x.size) then some x else find_in vaddr xs

unfoldable pub find_region : Vmm → ℕ → ℕ → Option Region
find_region v at_space vaddr =
    if at_space == 0 then none else find_in vaddr (v.space at_space).regions

pub is_mapped : Vmm → ℕ → Bool
is_mapped v vaddr = not (Paging.get_physical (machine v) vaddr == 0)

-- `register_existing_region` for each of the kernel's regions.
pub register_all : List Region → ℕ → Vmm → Vmm
register_all [] at_space v = v
register_all (x ∷ xs) at_space v =
    register_all xs at_space (register_existing_region v at_space x.base x.size x.flags x.type)

-- sizeof(vmm_address_space_t)
abbrev pub space_size : ℕ
space_size = 12

-- The part of `vmm_create_address_space` behind `kmalloc`: `at_space` is the new struct.
pub fill_space : Vmm → ℕ → Option (ℕ × Vmm)
fill_space v at_space =
    let (dir, m) = Paging.create_directory (machine v) in
    elim dir [
      | none ↦ elim (Kheap.kfree (with_machine v m).heap at_space) [
        | none ↦ none
        | some h ↦ some (0, record v { heap = h })
      ]
      | some page_directory ↦
          let made = record (with_machine v m) {
            space =
                update v.space at_space
                  (record { page_directory = page_directory; regions = []; region_count = 0 });
          } in
          some (at_space, register_all (v.space v.kernel_space).regions at_space made)
    ]

-- `none`: `kmalloc` or `kfree` does not return.
unfoldable pub create_address_space : Vmm → Option (ℕ × Vmm)
create_address_space v = elim (Kheap.kmalloc v.heap space_size) [
  | none ↦ none
  | some (at_space, h) ↦
      if at_space == 0
      then some (0, record v { heap = h })
      else fill_space (record v { heap = h }) at_space
]

-- The pages of one region, as `vmm_destroy_address_space` releases them: `n` pages left at `addr`.
pub release_pages : ℕ → ℕ → Machine → Machine
release_pages zero addr m = m
release_pages (suc n) addr m =
    let phys = Paging.get_physical m addr in
    let unmapped = Paging.unmap_page m addr in
    release_pages n (add32 addr page_size)
      (if phys == 0 then m else record unmapped { pmm = Pmm.free_frame unmapped.pmm phys })

pub release_region : Region → Machine → Machine
release_region r m =
    let end = add32 r.base r.size in
    if leb 6 (ordinal r.type) then release_pages (page_count (end - r.base)) r.base m else m

pub release_regions : List Region → Machine → Machine
release_regions [] m = m
release_regions (x ∷ xs) m = release_regions xs (release_region x m)

-- `none`: `kfree` does not return.
unfoldable pub destroy_address_space : Vmm → ℕ → Option Vmm
destroy_address_space v at_space =
    if (at_space == 0) || (at_space == v.kernel_space)
    then some v
    else let m = release_regions (v.space at_space).regions (machine v) in
      let freed = record m { pmm = Pmm.free_frame m.pmm (v.space at_space).page_directory } in
      elim (Kheap.kfree (with_machine v freed).heap at_space) [
        | none ↦ none
        | some h ↦ some (record v { heap = h })
      ]

unfoldable pub switch_address_space : Vmm → ℕ → Vmm
switch_address_space v at_space =
    if (at_space == 0) || ((v.space at_space).page_directory == 0) then v else record v {
      current_space = at_space;
      heap = record v.heap {
        machine = Paging.switch_directory (machine v) (v.space at_space).page_directory;
      };
    }

-- What the page fault handler reports of a fault, before it halts.
pub data Diagnosis : Type 0 where
  no_space : Diagnosis
  not_present : Region → Diagnosis
  protection : Region → Bool → Bool → Diagnosis
  segfault : Diagnosis

-- `faulting_addr` is CR2. The flags of `protection` say that a write met a region that is not writable,
-- and that user mode met a region of the kernel.
unfoldable pub page_fault : Vmm → ℕ → ℕ → Diagnosis
page_fault v faulting_addr error_code =
    let present = not (bit_and error_code 1 == 0) in
    let write = not (bit_and error_code 2 == 0) in
    let user = not (bit_and error_code 4 == 0) in
    if v.current_space == 0 then no_space else elim (find_region v v.current_space faulting_addr) [
      | none ↦ segfault
      | some r ↦
          if present
          then protection r (write && (bit_and r.flags 2 == 0)) (user && (bit_and r.flags 8 == 0))
          else not_present r
    ]
