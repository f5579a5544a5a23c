-- ===== src/Vmm/Layout.antt =====
-- kernel/vmm.c: the regions of the kernel's address space behind `vmm_init`.
use tuple_os.Common.{
  ℕ, ◌+◌, ◌-◌, ◌≤◌, ◌<◌, ◌≡◌, refl, sym, ap, ◌∙◌, true, false, ltb, arith, List, [], ◌∷◌, page_up,
  sub32, update,
}
use native.Mathlib.Decide.{dec_lt}
use mathlib.Core.Path.{subst}
use tuple_os.Paging
use tuple_os.Vmm.{
  Vmm, machine, Region, RegionType, init, register_existing_region, insert_region, insert_sorted,
  insert_after, mmio, kernel_code, identity_map, kernel_heap,
}
use tuple_os.Vmm.Regions.{Apart, Member, Contains, here, there}
use tuple_os.Vmm.Start.{register_room}

-- A registration in this space while the pool has room.
record Registers (k : ℕ) (v v' : Vmm) (r : Region) : Type 0 where
  regions : (v'.space k).regions ≡ insert_sorted r (v.space k).regions
  used : v'.region_pool_used ≡ v.region_pool_used + 1

abbrev made : Vmm → ℕ → ℕ → ℕ → RegionType → Region
made v base size flags type = record {
  slot = v.region_pool_used;
  base = base;
  size = size;
  flags = flags;
  type = type;
}

register-Registers :
    (k : ℕ) (v : Vmm) (base size flags : ℕ) (type : RegionType)
    → v.region_pool_used < 256
    → Registers k v
        (register_existing_region v k base size flags type)
        (made v base size flags type)
unfolding insert_region
register-Registers k v base size flags type room =
    subst (λ w. Registers k v w (made v base size flags type))
      (sym (register_room v k base size flags type (ground arith)))
      (record { regions = ground arith; used = refl })

-- The four regions of a kernel that ends at `kend`.
abbrev pub layout : ℕ → List Region
layout kend =
    record { slot = 0; base = 0xc000_1000; size = 0xf_f000; flags = 3; type = mmio }
    ∷ record {
      slot = 1;
      base = 0xc010_0000;
      size = kend - 0xc010_0000;
      flags = 7;
      type = kernel_code;
    }
    ∷ record { slot = 2; base = kend; size = 0xc040_0000 - kend; flags = 3; type = identity_map }
    ∷ record { slot = 3; base = 0xc040_0000; size = 0x100_0000; flags = 3; type = kernel_heap }
    ∷ []

layout-Apart : (kend : ℕ) → 0xc010_0000 < kend → kend < 0xc040_0000 → Apart 0 (layout kend)
layout-Apart kend lo hi = (
  omega arith,
  omega arith,
  omega arith,
  (
    omega arith,
    omega arith,
    omega arith,
    (omega arith, omega arith, omega arith, (omega arith, omega arith, omega arith, tt)),
  ),
)

layout-Contains :
    (kend a : ℕ)
    → 0xc010_0000 < kend
    → kend < 0xc040_0000
    → 0xc000_1000 ≤ a
    → a < 0xc140_0000
    → (r : Region) × Member r (layout kend) × Contains r a
layout-Contains kend a lo hi low high = elim (dec_lt a 0xc010_0000) [
  | yes first ↦ (_, here, (omega arith, omega arith))
  | no x ↦ elim (dec_lt a kend) [
    | yes second ↦ (_, there here, (omega arith, omega arith))
    | no y ↦ elim (dec_lt a 0xc040_0000) [
      | yes third ↦ (_, there (there here), (omega arith, omega arith))
      | no z ↦ (_, there (there (there here)), (omega arith, omega arith))
    ]
  ]
]

-- The space with the regions in its list, from the pool's slots on.
four_regions :
    (k kend : ℕ) (v v1 v2 v3 v4 : Vmm)
    → v.region_pool_used ≡ 0
    → (v.space k).regions ≡ []
    → 0xc010_0000 < kend
    → kend < 0xc040_0000
    → Registers k v v1 (made v 0xc000_1000 0xf_f000 3 mmio)
    → Registers k v1 v2 (made v1 0xc010_0000 (sub32 kend 0xc010_0000) 7 kernel_code)
    → Registers k v2 v3 (made v2 kend (sub32 0xc040_0000 kend) 3 identity_map)
    → Registers k v3 v4 (made v3 0xc040_0000 0x100_0000 3 kernel_heap)
    → (v4.space k).regions ≡ layout kend
unfolding insert_sorted insert_after
four_regions k kend v v1 v2 v3 v4 zero' empty lo hi a b c d =
    let used1 : v1.region_pool_used ≡ 1 = omega (arith, zero', a.used) in
    let used2 : v2.region_pool_used ≡ 2 = omega (arith, used1, b.used) in
    let used3 : v3.region_pool_used ≡ 3 = omega (arith, used2, c.used) in
    let code : sub32 kend 0xc010_0000 ≡ kend - 0xc010_0000 = omega arith in
    let rest : sub32 0xc040_0000 kend ≡ 0xc040_0000 - kend = omega arith in
    let first : ltb kend 0xc000_1000 ≡ false = ground arith in
    let second : ltb 0xc010_0000 kend ≡ true = ground arith in
    let third : ltb kend 0xc040_0000 ≡ true = ground arith in
    d.regions
    ∙ ap (insert_sorted _) (
        c.regions
        ∙ ap (insert_sorted _)
            (b.regions ∙ ap (insert_sorted _) (a.regions ∙ ap (insert_sorted _) empty)))
    ∙ rw (first, second, third, zero', used1, used2, used3, code, rest) refl

-- While the pool of regions is unused and the kernel ends in the first 3 MB behind its base, `vmm_init` leaves
-- the kernel's space with four regions in order and apart, and every address from 0xC0001000 up to the end
-- of the heap's range at 0xC1400000 lies in one of them.
pub init_regions :
    (kernel_symbol : ℕ) (v : Vmm)
    → v.region_pool_used ≡ 0
    → 0xc010_0000 < page_up kernel_symbol
    → page_up kernel_symbol < 0xc040_0000
    → let regions = ((init kernel_symbol v).space v.kernel_space).regions in
      (regions ≡ layout (page_up kernel_symbol))
      × Apart 0 regions
      × ((a : ℕ)
          → 0xc000_1000 ≤ a
          → a < 0xc140_0000
          → (r : Region) × Member r regions × Contains r a)
unfolding init
init_regions kernel_symbol v unused lo hi =
    let k = v.kernel_space in
    let kend = page_up kernel_symbol in
    let v0 : Vmm = record v {
      space = update v.space k (record {
        page_directory = Paging.get_directory (machine v);
        regions = [];
        region_count = 0;
      });
      current_space = k;
    } in
    let below : ltb kend 0xc040_0000 ≡ true = ground arith in
    let a = register-Registers k v0 0xc000_1000 0xf_f000 3 mmio (omega arith) in
    let v1 = register_existing_region v0 k 0xc000_1000 0xf_f000 3 mmio in
    let b =
      register-Registers k v1 0xc010_0000 (sub32 kend 0xc010_0000) 7 kernel_code
        (omega (arith, a.used)) in
    let v2 = register_existing_region v1 k 0xc010_0000 (sub32 kend 0xc010_0000) 7 kernel_code in
    let c =
      register-Registers k v2 kend (sub32 0xc040_0000 kend) 3 identity_map
        (omega (arith, a.used, b.used)) in
    let v3 = register_existing_region v2 k kend (sub32 0xc040_0000 kend) 3 identity_map in
    let d =
      register-Registers k v3 0xc040_0000 0x100_0000 3 kernel_heap
        (omega (arith, a.used, b.used, c.used)) in
    let same = four_regions k kend v0 v1 v2 v3 _ unused (ground arith) lo hi a b c d in
    rw below (
      subst
        (λ rs.
          (rs ≡ layout kend)
          × Apart 0 rs
          × ((x : ℕ)
              → 0xc000_1000 ≤ x
              → x < 0xc140_0000
              → (r : Region) × Member r rs × Contains r x))
        (sym same)
        (refl, layout-Apart kend lo hi, λ x low high. layout-Contains kend x lo hi low high))
