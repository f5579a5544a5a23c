-- ===== src/Paging.antt =====
-- kernel/paging.c and paging.h: the kernel's page directory and its page tables.
pub mod Entries
pub mod Tables
pub mod Mapping
pub mod Data
pub mod Start
use tuple_os.Common.{
  ℕ, zero, suc, ◌+◌, ◌-◌, ◌*◌, ◌/◌, ◌%◌, ◌^◌, bit_and, bit_or, Bool, true, false, Option, none,
  some, ◌==◌, ◌||◌, ◌&&◌, not, ltb, if◌then◌else◌, add32, sub32, mul32, page_size, page_mask,
  update, fill_with,
}
use tuple_os.Pmm
use tuple_os.Pmm.{Pmm}

-- The state that paging.c and its callers share: the frame allocator, the static array
-- `page_directory`, physical memory as words (by the address of a frame and the index of a word in
-- it), the current directory's virtual address and CR3. The last two fields are the addresses that
-- the linker gives `page_directory` and `page_tables`.
pub record Machine : Type 0 where
  pub pmm : Pmm
  pub page_directory : ℕ → ℕ
  pub frames : ℕ → ℕ → ℕ
  pub current_page_directory : ℕ
  pub cr3 : ℕ
  pub directory_addr : ℕ
  pub tables_addr : ℕ
  pub faulted : Bool

abbrev pub kernel_virtual_base : ℕ
kernel_virtual_base = 0xc000_0000

abbrev pub phys_to_virt : ℕ → ℕ
phys_to_virt a = add32 a kernel_virtual_base

abbrev pub virt_to_phys : ℕ → ℕ
virt_to_phys a = sub32 a kernel_virtual_base

-- `PHYS_TO_VIRT` reaches the 16 MB that `paging_init` maps; an access behind them is a page fault.
abbrev pub reaches : ℕ → Bool
reaches phys = ltb phys 0x100_0000

abbrev pub page_entries : ℕ
page_entries = 1024

abbrev pub pd_index : ℕ → ℕ
pd_index virtual_addr = virtual_addr / 2 ^ 22

abbrev pub pt_index : ℕ → ℕ
pt_index virtual_addr = bit_and (virtual_addr / 2 ^ 12) 0x3ff

-- `!(entry & PAGE_PRESENT)`
abbrev pub is_absent : ℕ → Bool
is_absent entry = bit_and entry 1 == 0

-- The physical address of the table behind a directory entry.
abbrev pub table_phys : Machine → ℕ → ℕ
table_phys s i = bit_and (s.page_directory i) page_mask

-- NULL is address 0.
abbrev pub or_null : Option ℕ → ℕ
or_null none = 0
or_null (some a) = a

-- One of the four tables of the first 16 MB.
pub init_table : ℕ → Machine → Machine
init_table t s =
    let phys = virt_to_phys (add32 s.tables_addr (t * page_size)) in
    record s {
      page_directory = update s.page_directory (768 + t) (bit_or (bit_or phys 1) 2);
      frames = update s.frames phys (
          fill_with page_entries 0
            (λ i. bit_or (bit_or (mul32 (t * page_entries + i) page_size) 1) 2) (s.frames phys));
    }

pub init_tables : ℕ → ℕ → Machine → Machine
init_tables zero t s = s
init_tables (suc n) t s = init_tables n (t + 1) (init_table t s)

pub switch_directory : Machine → ℕ → Machine
switch_directory s dir_phys = record s {
  current_page_directory = phys_to_virt dir_phys;
  cr3 = dir_phys;
}

unfoldable pub get_directory : Machine → ℕ
get_directory s = virt_to_phys s.directory_addr

unfoldable pub init : Machine → Machine
init s =
    let filled =
      init_tables 4 0
        (record s { page_directory = fill_with page_entries 0 (λ _. 2) s.page_directory }) in
    record filled { current_page_directory = s.directory_addr; cr3 = virt_to_phys s.directory_addr }

-- There is a page table for the address, and `PHYS_TO_VIRT` reaches it.
abbrev pub has_table : Machine → ℕ → Bool
has_table s virtual_addr =
    not (is_absent (s.page_directory (pd_index virtual_addr)))
    && reaches (table_phys s (pd_index virtual_addr))

-- A new page table, cleared, behind directory entry `i`. The flag says whether there is one.
unfoldable pub add_table : Machine → ℕ → ℕ → Machine × Bool
add_table s i flags =
    let (frame, pmm') = Pmm.alloc_frame s.pmm in
    let new_table = or_null frame in
    if new_table == 0 then (record s { pmm = pmm' }, false) else (
      record s {
        pmm = pmm';
        frames = update s.frames new_table (fill_with page_entries 0 (λ _. 0) (s.frames new_table));
        page_directory =
            update s.page_directory i (bit_or (bit_or (bit_or new_table 1) 2) (bit_and flags 4));
        faulted = s.faulted || not (reaches new_table);
      },
      true,
    )

-- The first part of `paging_map_page`: the directory entry is made present if it is not. The flag
-- says whether the function goes on.
unfoldable pub ensure_table : Machine → ℕ → ℕ → Machine × Bool
ensure_table s i flags = if is_absent (s.page_directory i) then add_table s i flags else (s, true)

-- `table[index] = entry` in the table behind directory entry `i`.
unfoldable pub write_entry : Machine → ℕ → ℕ → ℕ → Machine
write_entry s i index entry = record s {
  frames = update s.frames (table_phys s i) (update (s.frames (table_phys s i)) index entry);
  faulted = s.faulted || not (reaches (table_phys s i));
}

-- `(physical_addr & 0xFFFFF000) | (flags & 0xFFF) | PAGE_PRESENT`
abbrev pub page_entry : ℕ → ℕ → ℕ
page_entry physical_addr flags =
    bit_or (bit_or (bit_and physical_addr page_mask) (bit_and flags 0xfff)) 1

unfoldable pub map_page : Machine → ℕ → ℕ → ℕ → Machine
map_page s virtual_addr physical_addr flags =
    let (s', found) = ensure_table s (pd_index virtual_addr) flags in
    if found
    then write_entry s' (pd_index virtual_addr) (pt_index virtual_addr)
        (page_entry physical_addr flags)
    else s'

unfoldable pub unmap_page : Machine → ℕ → Machine
unmap_page s virtual_addr =
    if is_absent (s.page_directory (pd_index virtual_addr))
    then s
    else write_entry s (pd_index virtual_addr) (pt_index virtual_addr) 0

-- The table is read through `PHYS_TO_VIRT`: the value is that of the source where the window `reaches` it, which
-- `Tables.IsValid` asks for.
unfoldable pub get_physical : Machine → ℕ → ℕ
get_physical s virtual_addr =
    if is_absent (s.page_directory (pd_index virtual_addr))
    then 0
    else let entry = s.frames (table_phys s (pd_index virtual_addr)) (pt_index virtual_addr) in
      if is_absent entry then 0 else add32 (bit_and entry page_mask) (bit_and virtual_addr 0xfff)

-- `none` is NULL.
unfoldable pub create_directory : Machine → Option ℕ × Machine
create_directory s =
    let (frame, pmm') = Pmm.alloc_frame s.pmm in
    let dir_phys = or_null frame in
    if dir_phys == 0 then (none, record s { pmm = pmm' }) else (
      some dir_phys,
      record s {
        pmm = pmm';
        frames = update s.frames dir_phys (
            fill_with 256 768 s.page_directory
              (fill_with page_entries 0 (λ _. 2) (s.frames dir_phys)));
        faulted = s.faulted || not (reaches dir_phys);
      },
    )
