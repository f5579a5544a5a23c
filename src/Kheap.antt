-- ===== src/Kheap.antt =====
-- kernel/kheap.c: the kernel heap, a linked list of block headers in the heap's own memory.
pub mod Blocks
pub mod Fit
pub mod Live
pub mod Coalesce
pub mod Merge
pub mod Grow
pub mod Correct
pub mod Expand
pub mod Alloc
pub mod Free
pub mod Cycle
pub mod Init
pub mod Frames
use tuple_os.Common.{
  ℕ, zero, suc, ◌+◌, ◌-◌, ◌*◌, ◌/◌, bit_and, Bool, true, false, Option, none, some, ltb, leb, ◌==◌,
  ◌&&◌, ◌||◌, not, if◌then◌else◌, add32, sub32, mul32, page_size, page_up, update, fill_with,
}
use tuple_os.Pmm
use tuple_os.Paging
use tuple_os.Paging.{Machine, or_null, has_table}

-- `block_header_t`
pub record Header : Type 0 where
  pub size : ℕ
  pub is_free : ℕ
  pub next : ℕ

-- The statics of kheap.c over the machine. The pages below `heap_end` are taken to be mapped: `init` and
-- `heap_expand` map them, and nothing in kheap.c unmaps them. `cell a` is the header at the address `a`, and `bytes a` the
-- byte at `a` of the memory between the headers, which callers own.
pub record Heap : Type 0 where
  pub machine : Machine
  pub cell : ℕ → Header
  pub bytes : ℕ → ℕ
  pub heap_start : ℕ
  pub heap_end : ℕ
  pub heap_max : ℕ
  pub first_block : ℕ
  pub total_allocated : ℕ

abbrev pub header_size : ℕ
header_size = 12

abbrev pub initial_heap_size : ℕ
initial_heap_size = 1024 * 1024

abbrev pub max_heap_size : ℕ
max_heap_size = 16 * 1024 * 1024

abbrev pub heap_start_addr : ℕ
heap_start_addr = 0xc040_0000

-- The loop that maps fresh frames from `base + i` on, with `n` pages left; false: no frame was left.
pub map_pages : ℕ → ℕ → ℕ → Machine → Machine × Bool
map_pages zero i base m = (m, true)
map_pages (suc n) i base m =
    let (frame, pmm') = Pmm.alloc_frame m.pmm in
    let taken = record m { pmm = pmm' } in
    let rest =
      map_pages n (i + page_size) base (Paging.map_page taken (add32 base i) (or_null frame) 3) in
    if or_null frame == 0 then (taken, false) else rest

-- Whether the pages from `base + i` on have page tables that `PHYS_TO_VIRT` reaches. A page that has none was
-- not mapped by `paging_map_page`, which does not say so, and an access to it is a page fault.
pub has_tables : ℕ → ℕ → ℕ → Machine → Bool
has_tables zero i base m = true
has_tables (suc n) i base m = has_table m (add32 base i) && has_tables n (i + page_size) base m

unfoldable pub init : Heap → Heap
init h =
    let (m, mapped) = map_pages (initial_heap_size / page_size) 0 heap_start_addr h.machine in
    let start = record h {
      machine = m;
      heap_start = heap_start_addr;
      heap_end = heap_start_addr;
      heap_max = heap_start_addr + max_heap_size;
    } in
    if mapped
    then record start {
      heap_end = heap_start_addr + initial_heap_size;
      first_block = heap_start_addr;
      cell =
          update start.cell heap_start_addr
            (record { size = initial_heap_size - header_size; is_free = 1; next = 0 });
    }
    else start

-- Rounds that a walk over the list takes at most: a block has a header of `header_size` bytes.
abbrev pub fuel : Heap → ℕ
fuel h = suc (sub32 h.heap_end h.heap_start)

-- `while (block->next) block = block->next;` `none`: the fuel ran out.
pub last_block : ℕ → (ℕ → Header) → ℕ → Option ℕ
last_block zero cell block = none
last_block (suc n) cell block =
    let rest = last_block n cell (cell block).next in
    if (cell block).next == 0 then some block else rest

-- What `heap_expand` does once the pages are mapped: `last` is the last block.
pub extend : Heap → ℕ → ℕ → Heap
extend h last expand_size =
    let block = h.cell last in
    if block.is_free == 0
    then record h {
      cell =
          update
            (update h.cell h.heap_end
              (record { size = sub32 expand_size header_size; is_free = 1; next = 0 }))
            last (record block { next = h.heap_end });
      heap_end = add32 h.heap_end expand_size;
    }
    else record h {
      cell = update h.cell last (record block { size = add32 block.size expand_size });
      heap_end = add32 h.heap_end expand_size;
    }

-- `none`: there is no first block to read, the list is endless, or a page was left unmapped: the header that
-- is written there, here or by `split_block`, or the first byte that a caller writes is a page fault, which
-- is taken for one of this function.
pub heap_expand : Heap → ℕ → Option (Bool × Heap)
heap_expand h min_size =
    let expand_size = page_up min_size in
    let (m, mapped) = map_pages (expand_size / page_size) 0 h.heap_end h.machine in
    let grown = record h { machine = m } in
    if ltb h.heap_max (add32 h.heap_end expand_size)
    then some (false, h)
    else if mapped
    then if (h.first_block == 0) || not (has_tables (expand_size / page_size) 0 h.heap_end m)
      then none
      else elim (last_block (fuel h) h.cell h.first_block) [
        | none ↦ none
        | some last ↦ some (true, extend grown last expand_size)
      ]
    else some (false, grown)

-- 0 is NULL; `none`: the fuel ran out.
pub find_free_block : ℕ → (ℕ → Header) → ℕ → ℕ → Option ℕ
find_free_block zero cell block size = none
find_free_block (suc n) cell block size =
    let rest = find_free_block n cell (cell block).next size in
    if block == 0
    then some 0
    else if not ((cell block).is_free == 0) && leb size (cell block).size
    then some block
    else rest

pub split_block : (ℕ → Header) → ℕ → ℕ → ℕ → Header
split_block cell block size =
    let old = cell block in
    let new_block = add32 (add32 block header_size) size in
    if leb (add32 (add32 size header_size) 32) old.size
    then update
        (update cell new_block
          (record { size = sub32 (sub32 old.size size) header_size; is_free = 1; next = old.next }))
        block (record old { size = size; next = new_block })
    else cell

-- The end of `kmalloc`: the block is split, taken and counted.
pub take_block : Heap → ℕ → ℕ → Heap
take_block h block size =
    let cell = split_block h.cell block size in
    record h {
      cell = update cell block (record (cell block) { is_free = 0 });
      total_allocated = add32 h.total_allocated (cell block).size;
    }

-- `(size + 7) & ~7`
abbrev pub align8 : ℕ → ℕ
align8 size = bit_and (add32 size 7) 0xffff_fff8

-- The pointer that `kmalloc` returns for a block.
abbrev pub payload : ℕ → ℕ
payload block = add32 block header_size

-- The allocation after a heap expansion.
pub alloc_expanded : Heap → ℕ → Option (ℕ × Heap)
alloc_expanded h size = elim (heap_expand h (add32 size header_size)) [
  | none ↦ none
  | some (false, h') ↦ some (0, h')
  | some (true, h') ↦ elim (find_free_block (fuel h') h'.cell h'.first_block size) [
    | none ↦ none
    | some block ↦
        if block == 0 then some (0, h') else some (payload block, take_block h' block size)
  ]
]

unfoldable pub kmalloc : Heap → ℕ → Option (ℕ × Heap)
kmalloc h request =
    if request == 0
    then some (0, h)
    else elim (find_free_block (fuel h) h.cell h.first_block (align8 request)) [
      | none ↦ none
      | some block ↦
          if block == 0
          then alloc_expanded h (align8 request)
          else some (payload block, take_block h block (align8 request))
    ]

unfoldable pub kmalloc_aligned : Heap → ℕ → Option (ℕ × Heap)
kmalloc_aligned h size = elim (kmalloc h (add32 size page_size)) [
  | none ↦ none
  | some (ptr, h') ↦ some (if ptr == 0 then 0 else page_up ptr, h')
]

unfoldable pub kcalloc : Heap → ℕ → ℕ → Option (ℕ × Heap)
kcalloc h num size =
    let total = mul32 num size in
    elim (kmalloc h total) [
      | none ↦ none
      | some (ptr, h') ↦ some (
        ptr,
        (if ptr == 0 then h' else record h' { bytes = fill_with total ptr (λ _. 0) h'.bytes }),
      )
    ]

-- The loop of `merge_free_blocks`; `none`: the fuel ran out.
pub merge_free_blocks : ℕ → (ℕ → Header) → ℕ → Option (ℕ → Header)
merge_free_blocks zero cell block = none
merge_free_blocks (suc n) cell block =
    let here = cell block in
    let after = cell here.next in
    let merged =
      merge_free_blocks n
        (update cell block (record here {
          size = add32 here.size (add32 header_size after.size);
          next = after.next;
        }))
        block in
    let advanced = merge_free_blocks n cell here.next in
    if block == 0
    then some cell
    else if here.next == 0
    then some cell
    else if not (here.is_free == 0) && not (after.is_free == 0)
    then merged
    else advanced

unfoldable pub kfree : Heap → ℕ → Option Heap
kfree h ptr =
    let block = sub32 ptr header_size in
    let header = h.cell block in
    if ptr == 0
    then some h
    else if header.is_free == 0
    then elim (merge_free_blocks (fuel h) (update h.cell block (record header { is_free = 1 }))
        h.first_block) [
          | none ↦ none
          | some cell ↦
              some (record h { cell = cell; total_allocated = sub32 h.total_allocated header.size })
        ]
    else some h

unfoldable pub get_used : Heap → ℕ
get_used h = h.total_allocated

unfoldable pub get_free : Heap → ℕ
get_free h = sub32 (sub32 h.heap_end h.heap_start) h.total_allocated
