-- ===== src/Vmm.antt =====
-- kernel/vmm.c and vmm.h: regions of virtual memory, grouped in address spaces.
pub mod Spaces
pub mod Regions
pub mod Gaps
pub mod Lists
pub mod Start
pub mod Layout
mod Page
pub mod Pages
pub mod Grant
pub mod Fault
mod Unmapping
pub mod Undo
pub mod Rollback
pub mod Recycle
pub mod Removal
pub mod Cycle
pub mod Report
use tuple_os.Common.{
  ℕ, zero, suc, ◌+◌, ◌-◌, ◌*◌, ◌/◌, bit_and, bit_or, Bool, true, false, Option, none, some, ltb,
  leb, ◌==◌, ◌&&◌, ◌||◌, not, if◌then◌else◌, add32, sub32, page_size, page_mask, page_up, update,
  fill_with, List, [], ◌∷◌,
}
use tuple_os.Pmm
use tuple_os.Paging
use tuple_os.Paging.{Machine, or_null}
use tuple_os.Kheap
use tuple_os.Kheap.{Heap}

-- `vmm_region_type_t`
pub data RegionType : Type 0 where
  free kernel_code kernel_data kernel_heap kernel_stack identity_map : RegionType
  user_code user_data user_heap user_stack mmio : RegionType

abbrev pub ordinal : RegionType → ℕ
ordinal free = 0
ordinal kernel_code = 1
ordinal kernel_data = 2
ordinal kernel_heap = 3
ordinal kernel_stack = 4
ordinal identity_map = 5
ordinal user_code = 6
ordinal user_data = 7
ordinal user_heap = 8
ordinal user_stack = 9
ordinal mmio = 10

-- `vmm_region_t`. Its links are the order of a list, and `slot`, its place in the pool, is its address.
pub record Region : Type 0 where
  pub slot : ℕ
  pub base : ℕ
  pub size : ℕ
  pub flags : ℕ
  pub type : RegionType

-- `vmm_address_space_t`
pub record Space : Type 0 where
  pub page_directory : ℕ
  pub regions : List Region
  pub region_count : ℕ

-- The statics of vmm.c over the heap. `space a` is the address space at the address `a`; 0 is NULL, and
-- `kernel_space` the address of the static of that name.
pub record Vmm : Type 0 where
  pub heap : Heap
  pub space : ℕ → Space
  pub kernel_space : ℕ
  pub current_space : ℕ
  pub region_pool_used : ℕ

abbrev pub max_regions : ℕ
max_regions = 256

abbrev pub machine : Vmm → Machine
machine v = v.heap.machine

abbrev pub with_machine : Vmm → Machine → Vmm
with_machine v m = record v { heap = record v.heap { machine = m } }

-- The slot that is handed out, or none. A slot never comes back.
unfoldable pub alloc_region : Vmm → Option ℕ × Vmm
alloc_region v =
    if leb max_regions v.region_pool_used
    then (none, v)
    else (some v.region_pool_used, record v { region_pool_used = v.region_pool_used + 1 })

-- The walk of `insert_region` behind a region that comes first.
pub insert_after : Region → List Region → List Region
insert_after r [] = r ∷ []
insert_after r (x ∷ xs) = if ltb x.base r.base then x ∷ insert_after r xs else r ∷ (x ∷ xs)

unfoldable pub insert_sorted : Region → List Region → List Region
insert_sorted r [] = r ∷ []
insert_sorted r (x ∷ xs) = if ltb r.base x.base then r ∷ (x ∷ xs) else x ∷ insert_after r xs

unfoldable pub insert_region : Space → Region → Space
insert_region s r = record s {
  regions = insert_sorted r s.regions;
  region_count = add32 s.region_count 1;
}

unfoldable pub unlink : ℕ → List Region → List Region
unlink slot [] = []
unlink slot (x ∷ xs) = if x.slot == slot then xs else x ∷ unlink slot xs

pub is_linked : ℕ → List Region → Bool
is_linked slot [] = false
is_linked slot (x ∷ xs) = (x.slot == slot) || is_linked slot xs

-- `remove_region`; the region is named by its slot.
unfoldable pub remove_region : Space → ℕ → Space
remove_region s slot =
    if is_linked slot s.regions
    then record s { regions = unlink slot s.regions; region_count = sub32 s.region_count 1 }
    else s

-- `register_existing_region` behind its call of `alloc_region`.
unfoldable pub place_region : Option ℕ × Vmm → ℕ → ℕ → ℕ → ℕ → RegionType → Vmm
place_region (none, v) at_space base size flags type = v
place_region (some s, v) at_space base size flags type = record v {
  space = update v.space at_space (
      insert_region (v.space at_space)
        (record { slot = s; base = base; size = size; flags = flags; type = type }));
}

-- Without the pointer that it returns.
unfoldable pub register_existing_region : Vmm → ℕ → ℕ → ℕ → ℕ → RegionType → Vmm
register_existing_region v at_space base size flags type =
    place_region (alloc_region v) at_space base size flags type

-- VMM_READ 1, VMM_WRITE 2, VMM_EXEC 4, VMM_USER 8 to PAGE_PRESENT 1, PAGE_WRITE 2, PAGE_USER 4
unfoldable pub flags_to_page_flags : ℕ → ℕ
flags_to_page_flags flags =
    let written = if bit_and flags 2 == 0 then 1 else bit_or 1 2 in
    if bit_and flags 8 == 0 then written else bit_or written 4

-- `kernel_symbol` is the address that the linker gives `_kernel_end`.
unfoldable pub init : ℕ → Vmm → Vmm
init kernel_symbol v =
    let k = v.kernel_space in
    let empty = record v {
      space = update v.space k (record {
        page_directory = Paging.get_directory (machine v);
        regions = [];
        region_count = 0;
      });
      current_space = k;
    } in
    let kend = page_up kernel_symbol in
    let low = register_existing_region empty k 0xc000_1000 0xf_f000 (bit_or 1 2) mmio in
    let code =
      register_existing_region low k 0xc010_0000 (sub32 kend 0xc010_0000) (bit_or (bit_or 1 2) 4)
        kernel_code in
    let rest =
      if ltb kend 0xc040_0000
      then register_existing_region code k kend (sub32 0xc040_0000 kend) (bit_or 1 2) identity_map
      else code in
    register_existing_region rest k 0xc040_0000 (16 * 1024 * 1024) (bit_or 1 2) kernel_heap

-- `vmm_map_region` refuses a range for which this holds of a region.
unfoldable pub overlaps : ℕ → ℕ → Region → Bool
overlaps vaddr size x = ltb vaddr (add32 x.base x.size) && ltb x.base (add32 vaddr size)

unfoldable pub any_overlaps : ℕ → ℕ → List Region → Bool
any_overlaps vaddr size [] = false
any_overlaps vaddr size (x ∷ xs) = overlaps vaddr size x || any_overlaps vaddr size xs

-- The zeroing of a page through its virtual address; `none`: the page is not mapped, a page fault.
unfoldable pub zero_page : Machine → ℕ → Option Machine
zero_page m vaddr =
    let phys = bit_and (Paging.get_physical m vaddr) page_mask in
    if Paging.get_physical m vaddr == 0
    then none
    else some
        (record m { frames = update m.frames phys (fill_with 1024 0 (λ _. 0) (m.frames phys)) })

-- The loop of `vmm_map_region` with `n` pages left. It answers the offset at which no frame was left,
-- if that happened; `none`: a page fault.
unfoldable pub map_frames : ℕ → ℕ → ℕ → ℕ → Machine → Option (Option ℕ × Machine)
map_frames zero offset vaddr page_flags m = some (none, m)
map_frames (suc n) offset vaddr page_flags m =
    let (frame, pmm') = Pmm.alloc_frame m.pmm in
    let taken = record m { pmm = pmm' } in
    let mapped = Paging.map_page taken (add32 vaddr offset) (or_null frame) page_flags in
    let rest : Option (Option ℕ × Machine) = elim (zero_page mapped (add32 vaddr offset)) [
      | none ↦ none
      | some cleared ↦ map_frames n (offset + page_size) vaddr page_flags cleared
    ] in
    if or_null frame == 0 then some (some offset, taken) else rest

-- The loop that takes pages back: each is unmapped, and its frame freed if it was mapped.
pub undo_frames : ℕ → ℕ → ℕ → Machine → Machine
undo_frames zero offset vaddr m = m
undo_frames (suc n) offset vaddr m =
    let phys = Paging.get_physical m (add32 vaddr offset) in
    let unmapped = Paging.unmap_page m (add32 vaddr offset) in
    undo_frames n (offset + page_size) vaddr (
      if phys == 0
      then unmapped
      else record unmapped { pmm = Pmm.free_frame unmapped.pmm (bit_and phys page_mask) })

-- The last part of `vmm_map_region` behind its call of `alloc_region`: the region is recorded, or the pages
-- are taken back.
unfoldable pub store_region : Option ℕ × Vmm → ℕ → ℕ → ℕ → ℕ → RegionType → Bool × Vmm
store_region (none, v) at_space vaddr size flags type =
    (false, with_machine v (undo_frames (size / page_size) 0 vaddr (machine v)))
store_region (some s, v) at_space vaddr size flags type = (
  true,
  record v {
    space = update v.space at_space (
        insert_region (v.space at_space)
          (record { slot = s; base = vaddr; size = size; flags = flags; type = type }));
  },
)

unfoldable pub record_region : Vmm → ℕ → ℕ → ℕ → ℕ → RegionType → Bool × Vmm
record_region v at_space vaddr size flags type =
    store_region (alloc_region v) at_space vaddr size flags type

-- true stands for 0 and false for -1; `none`: a page fault.
unfoldable pub map_region : Vmm → ℕ → ℕ → ℕ → ℕ → RegionType → Option (Bool × Vmm)
map_region v at_space vaddr size flags type =
    let mapped = map_frames (size / page_size) 0 vaddr (flags_to_page_flags flags) (machine v) in
    if (at_space == 0) || (not (bit_and vaddr 0xfff == 0) || not (bit_and size 0xfff == 0))
    then some (false, v)
    else if any_overlaps vaddr size (v.space at_space).regions
    then some (false, v)
    else elim mapped [
      | none ↦ none
      | some (none, m) ↦ some (record_region (with_machine v m) at_space vaddr size flags type)
      | some (some offset, m) ↦
          some (false, with_machine v (undo_frames (offset / page_size) 0 vaddr m))
    ]
