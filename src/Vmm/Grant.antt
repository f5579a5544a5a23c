-- ===== src/Vmm/Grant.antt =====
-- kernel/vmm.c: `vmm_map_region` answers, and maps its range, while frames are free.
use tuple_os.Common.{
  ◌⊎◌, ℕ, zero, suc, ◌+◌, ◌*◌, ◌/◌, ◌%◌, ◌≤◌, ◌<◌, ◌≡◌, ◌≢◌, refl, sym, true, false, Option, none,
  some, arith, ◌==◌, if◌then◌else◌, u32_mod, add32, bit_and, bit_and-page_offset, page_size,
}
use mathlib.Core.Path.{subst}
use tuple_os.Pmm
use tuple_os.Pmm.{Pmm}
use tuple_os.Pmm.Frames.{Allocates, alloc_frame-Allocates}
use tuple_os.Paging
use tuple_os.Paging.{Machine, or_null}
use tuple_os.Paging.Tables.{IsValid}
use tuple_os.Kheap.Frames.{Run, alloc-Run}
use tuple_os.Vmm.{
  Vmm, RegionType, machine, with_machine, zero_page, map_frames, map_region, record_region,
  store_region, any_overlaps, flags_to_page_flags,
}
use tuple_os.Vmm.Lists.{alloc_room}
use tuple_os.Vmm.Page.{Paged, page_step}
use tuple_os.Vmm.Pages.{Pages, no_pages, joined}

-- What the loop over the pages of a range answers.
pub record Mapped (n offset vaddr flags : ℕ) (m : Machine) : Type 0 where
  pub after : Machine
  pub runs : map_frames n offset vaddr flags m ≡ some (none, after)
  pub pages : Pages m (vaddr + offset) (vaddr + offset + n * 4096) after

-- The range of the first page and that of the pages behind it.
widen :
    (n offset vaddr : ℕ) (m m2 m' : Machine)
    → vaddr % 4096 ≡ 0
    → offset % 4096 ≡ 0
    → vaddr + offset + suc n * 4096 ≤ u32_mod
    → Paged m (add32 vaddr offset) m2
    → Pages m2 (vaddr + (offset + page_size)) (vaddr + (offset + page_size) + n * 4096) m'
    → Pages m (vaddr + offset) (vaddr + offset + suc n * 4096) m'
widen n offset vaddr m m2 m' a b fits p rest =
    let at : add32 vaddr offset ≡ vaddr + offset = omega arith in
    let begin : vaddr + (offset + page_size) ≡ add32 vaddr offset + 4096 = omega arith in
    let end : vaddr + (offset + page_size) + n * 4096 ≡ vaddr + offset + suc n * 4096 =
      omega arith in
    let rest' : Pages m2 (add32 vaddr offset + 4096) (vaddr + offset + suc n * 4096) m' =
      subst (λ x. Pages m2 x (vaddr + offset + suc n * 4096) m') begin
        (subst (λ x. Pages m2 (vaddr + (offset + page_size)) x m') end rest) in
    subst (λ x. Pages m x (vaddr + offset + suc n * 4096) m') at
      (joined m (add32 vaddr offset) m2 (vaddr + offset + suc n * 4096) m' (omega arith) fits p
        rest' (omega arith))

-- A round of the loop behind the call of `pmm_alloc_frame`, which answered `o`.
round :
    (n offset vaddr flags : ℕ) (m : Machine) (lo hi : ℕ) (o : Option ℕ) (q : Pmm)
    → IsValid m
    → lo + 2 * suc n ≤ hi
    → hi ≤ 1024
    → vaddr % 4096 ≡ 0
    → offset % 4096 ≡ 0
    → vaddr + offset + suc n * 4096 ≤ u32_mod
    → ((m2 : Machine)
        → IsValid m2
        → Run m2.pmm (lo + 1 + 1) hi
        → Mapped n (offset + page_size) vaddr flags m2)
    → Allocates m.pmm o q
    → (or_null o ≢ 0) × Run q (lo + 1) hi
    → (after : Machine) × ((if or_null o == 0
          then some (some offset, record m { pmm = q })
          else elim (zero_page
              (Paging.map_page (record m { pmm = q }) (add32 vaddr offset) (or_null o) flags)
              (add32 vaddr offset)) [
                | none ↦ none
                | some cleared ↦ map_frames n (offset + page_size) vaddr flags cleared
              ])
        ≡ some (none, after))
      × Pages m (vaddr + offset) (vaddr + offset + suc n * 4096) after
round n offset vaddr flags m lo hi none q v room reach a b fits later al t = absurd (t.0 refl)
round n offset vaddr flags m lo hi (some p) q v room reach a b fits later al t =
    let s =
      page_step m (add32 vaddr offset) flags q p (lo + 1) hi v (omega arith) (omega arith) al.0 al.1
        t.0 t.1 (omega arith) reach in
    let l = later s.after s.paged.valid s.run in
    let there : (p == 0) ≡ false = ground (arith, t.0) in
    (
      l.after,
      rw (there, s.runs) l.runs,
      widen n offset vaddr m s.after l.after a b fits s.paged l.pages,
    )

-- With two frames free in a row for each page, the loop maps them all.
pub map_frames-Mapped :
    (n offset vaddr flags : ℕ) (m : Machine) (lo hi : ℕ)
    → IsValid m
    → Run m.pmm lo hi
    → lo + 2 * n ≤ hi
    → hi ≤ 1024
    → vaddr % 4096 ≡ 0
    → offset % 4096 ≡ 0
    → vaddr + offset + n * 4096 ≤ u32_mod
    → Mapped n offset vaddr flags m
unfolding map_frames
map_frames-Mapped zero offset vaddr flags m lo hi v r room reach a b fits = record {
  after = m;
  runs = refl;
  pages = no_pages m _ _ v (omega arith);
}
map_frames-Mapped (suc n) offset vaddr flags m lo hi v r room reach a b fits =
    let (after, runs, pages) =
      round n offset vaddr flags m lo hi (Pmm.alloc_frame m.pmm).0 (Pmm.alloc_frame m.pmm).1 v room
        reach a b fits
        (λ m2 w run.
          map_frames-Mapped n (offset + page_size) vaddr flags m2 (lo + 1 + 1) hi w run
            (omega arith) reach a (omega arith) (omega arith))
        (alloc_frame-Allocates m.pmm v.bytes v.small) (alloc-Run m.pmm lo hi r (omega arith)) in
    record { after = after; runs = runs; pages = pages }

-- The range leaves the first 4 MB behind the kernel's base alone, through which the page tables are reached.
abbrev pub IsOutside : ℕ → ℕ → Type 0
IsOutside vaddr size = (vaddr + size ≤ 0xc000_0000) ⊎ (0xc040_0000 ≤ vaddr)

-- `record_region` while the pool has room.
recorded :
    (v : Vmm) (at_space vaddr size flags : ℕ) (type : RegionType)
    → v.region_pool_used < 256
    → (v' : Vmm) × (record_region v at_space vaddr size flags type ≡ (true, v'))
      × (machine v' ≡ machine v)
unfolding record_region store_region
recorded v at_space vaddr size flags type room = rw (alloc_room v (ground arith)) (_, refl, refl)

-- On valid page tables in the first 4 MB, with the range given by whole pages inside 4 GiB, outside the first
-- 4 MB behind the kernel's base and clear of the regions of a space that is not NULL, with a slot left in
-- the pool and, in the first 4 MB, twice as many frames free in a row as the range has pages:
-- `vmm_map_region` answers 0 without a fault, every page of the range gets a frame of its own that was free before,
-- holds no page table and is zeroed, and the addresses outside the range keep their translation.
pub map_region-Pages :
    (v : Vmm) (at_space vaddr n flags : ℕ) (type : RegionType) (lo hi : ℕ)
    → IsValid (machine v)
    → Run (machine v).pmm lo hi
    → lo + 2 * n ≤ hi
    → hi ≤ 1024
    → vaddr % 4096 ≡ 0
    → vaddr + n * 4096 ≤ u32_mod
    → IsOutside vaddr (n * 4096)
    → at_space ≢ 0
    → any_overlaps vaddr (n * 4096) (v.space at_space).regions ≡ false
    → v.region_pool_used < 256
    → (v' : Vmm) × (map_region v at_space vaddr (n * 4096) flags type ≡ some (true, v'))
      × Pages (machine v) vaddr (vaddr + n * 4096) (machine v')
unfolding map_region
map_region-Pages v at_space vaddr n flags type lo hi valid run room reach a fits outside space clear
      pool =
    let l =
      map_frames-Mapped n 0 vaddr (flags_to_page_flags flags) (machine v) lo hi valid run room reach
        a refl (omega arith) in
    let (v', stored, same) =
      recorded (with_machine v l.after) at_space vaddr (n * 4096) flags type pool in
    let count : n * 4096 / page_size ≡ n = omega arith in
    let there : (at_space == 0) ≡ false = ground arith in
    let page : bit_and vaddr 0xfff ≡ 0 = omega (arith, bit_and-page_offset vaddr) in
    let pages : bit_and (n * 4096) 0xfff ≡ 0 = omega (arith, bit_and-page_offset (n * 4096)) in
    let begin : vaddr + 0 ≡ vaddr = omega arith in
    (
      v',
      rw (count, there, page, pages, clear, l.runs, stored) refl,
      subst (λ m. Pages (machine v) vaddr (vaddr + n * 4096) m) (sym same)
          (subst (λ x. Pages (machine v) x (x + n * 4096) l.after) begin l.pages),
    )
