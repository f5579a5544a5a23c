-- ===== src/Vmm/Start.antt =====
-- kernel/vmm.c: the kernel's address space behind `vmm_init`.
use tuple_os.Common.{ℕ, ◌+◌, ◌≡◌, ap, Bool-cases, true, false, update, inl, inr, ltb, leb, page_up}
use tuple_os.Vmm.{
  Vmm, RegionType, init, register_existing_region, place_region, insert_region, max_regions,
}
use tuple_os.Vmm.Lists.{alloc_full, alloc_room}

-- The space with one region more, in the next slot of the pool.
abbrev pub registered : Vmm → ℕ → ℕ → ℕ → ℕ → RegionType → Vmm
registered v at_space base size flags type = record v {
  region_pool_used = v.region_pool_used + 1;
  space = update v.space at_space (
      insert_region (v.space at_space) (record {
        slot = v.region_pool_used;
        base = base;
        size = size;
        flags = flags;
        type = type;
      }));
}

pub register_room :
    (v : Vmm) (at_space base size flags : ℕ) (type : RegionType)
    → leb max_regions v.region_pool_used ≡ false
    → register_existing_region v at_space base size flags type
      ≡ registered v at_space base size flags type
unfolding register_existing_region place_region
register_room v at_space base size flags type room =
    ap (λ r. place_region r at_space base size flags type) (alloc_room v room)

register_full :
    (v : Vmm) (at_space base size flags : ℕ) (type : RegionType)
    → leb max_regions v.region_pool_used ≡ true
    → register_existing_region v at_space base size flags type ≡ v
unfolding register_existing_region place_region
register_full v at_space base size flags type full =
    ap (λ r. place_region r at_space base size flags type) (alloc_full v full)

register_heap :
    (v : Vmm) (at_space base size flags : ℕ) (type : RegionType)
    → (register_existing_region v at_space base size flags type).heap ≡ v.heap
register_heap v at_space base size flags type =
    elim (Bool-cases (leb max_regions v.region_pool_used)) [
      | inl e ↦ ap (λ w. w.heap) (register_full v at_space base size flags type e)
      | inr e ↦ ap (λ w. w.heap) (register_room v at_space base size flags type e)
    ]

-- `vmm_init` leaves the heap alone.
pub init_heap : (kernel_symbol : ℕ) (v : Vmm) → (init kernel_symbol v).heap ≡ v.heap
unfolding init
init_heap kernel_symbol v = elim (Bool-cases (ltb (page_up kernel_symbol) 0xc040_0000)) [
  | inl e ↦ rw e (simp register_heap)
  | inr e ↦ rw e (simp register_heap)
]
