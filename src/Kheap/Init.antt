-- ===== src/Kheap/Init.antt =====
-- kernel/kheap.c: the heap behind `kheap_init`.
use tuple_os.Common.{
  ◌+◌, ◌≡◌, refl, ◌⊎◌, inl, inr, Bool, true, false, Bool-cases, arith, List, [], ◌∷◌, ◌/◌, update,
  page_size, ◌-◌,
}
use tuple_os.Paging.{Machine}
use tuple_os.Kheap.{
  Heap, init, map_pages, heap_start_addr, initial_heap_size, max_heap_size, header_size,
}
use tuple_os.Kheap.Blocks.{Block, allocated}
use tuple_os.Kheap.Correct.{IsValid}

-- The machine behind the mapping of the first pages, and whether there were frames for all of them.
abbrev pub first_pages : Machine → Machine × Bool
first_pages m = map_pages (initial_heap_size / page_size) 0 heap_start_addr m

-- One free block over the first megabyte.
abbrev pub first_blocks : List Block
first_blocks = record { size = initial_heap_size - header_size; free = true } ∷ []

-- The heap of `kheap_init` once its pages are mapped.
abbrev pub opened : Heap → Machine → Heap
opened h m = record h {
  machine = m;
  heap_start = heap_start_addr;
  heap_end = heap_start_addr + initial_heap_size;
  heap_max = heap_start_addr + max_heap_size;
  first_block = heap_start_addr;
  cell =
      update h.cell heap_start_addr
        (record { size = initial_heap_size - header_size; is_free = 1; next = 0 });
}

pub init_runs :
    (h : Heap) → (first_pages h.machine).1 ≡ true → init h ≡ opened h (first_pages h.machine).0
unfolding init
init_runs h e = rw e refl

pub opened-IsValid :
    (h : Heap) (m : Machine) → h.total_allocated ≡ 0 → IsValid (opened h m) first_blocks
unfolding allocated
opened-IsValid h m none_yet = record {
  chain = (refl, refl, refl, (refl, refl));
  first = refl;
  low = omega arith;
  high = omega arith;
  limit = omega arith;
  counted = none_yet;
}

-- What `kheap_init` leaves: the well formed heap of one free block, or, where a frame was missing, an empty
-- heap without a block.
abbrev pub Opened : Heap → Heap → Type 0
Opened h h' =
    (((first_pages h.machine).1 ≡ true) × IsValid h' first_blocks)
    ⊎ (((first_pages h.machine).1 ≡ false)
        × (h'.heap_end ≡ h'.heap_start)
        × (h'.first_block ≡ h.first_block))

-- On zeroed statistics: where frames for its first megabyte were mapped, `kheap_init` leaves a well formed
-- heap of one free block; where a frame was missing it leaves a heap of no bytes and no new block.
pub init-Opened : (h : Heap) → h.total_allocated ≡ 0 → Opened h (init h)
unfolding init
init-Opened h none_yet = elim (Bool-cases (first_pages h.machine).1) [
  | inl e ↦ inl (e, rw e (opened-IsValid h (first_pages h.machine).0 none_yet))
  | inr e ↦ rw e (inr (refl, refl, refl))
]
