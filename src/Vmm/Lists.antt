-- ===== src/Vmm/Lists.antt =====
-- kernel/vmm.c: what mapping and unmapping a region do to the region lists of the spaces.
use tuple_os.Common.{
  ℕ, ◌+◌, ◌<◌, ◌≡◌, ◌≢◌, refl, sym, ap, Bool, true, false, arith, Option, none, some, leb, ◌==◌,
  ◌||◌, not, if◌then◌else◌, Bool-cases, inl, inr, u32_mod, update, bit_and, ◌/◌, page_size,
}
use native.Mathlib.Decide.{ℕ_discrete}
use mathlib.Core.Path.{subst}
use tuple_os.Paging.{Machine}
use tuple_os.Vmm.{
  Vmm, Region, RegionType, Space, with_machine, max_regions, alloc_region, insert_sorted,
  insert_region, record_region, store_region, map_region, undo_frames, any_overlaps, remove_region,
  is_linked, ordinal,
}
use tuple_os.Vmm.Spaces.{unmap_region, unmap_found, region_at}
use tuple_os.Vmm.Regions.{Apart, AllClear, any_overlaps_lem, insert_sorted-Apart, unlink-Apart}

-- In every space the regions are in order and apart.
abbrev pub IsApart : Vmm → Type 0
IsApart v = (s : ℕ) → Apart 0 (v.space s).regions

-- A region that `vmm_map_region` records.
abbrev pub recorded : ℕ → ℕ → ℕ → ℕ → RegionType → Region
recorded slot vaddr size flags type = record {
  slot = slot;
  base = vaddr;
  size = size;
  flags = flags;
  type = type;
}

-- What the answer of `vmm_map_region` means for the spaces: true, the range was clear and its region is
-- inserted in the one space; false, no space has changed.
abbrev pub MapOutcome : Vmm → ℕ → ℕ → ℕ → ℕ → RegionType → Bool → Vmm → Type 0
MapOutcome v at_space vaddr size flags type true v' =
    AllClear vaddr size (v.space at_space).regions
    × ((v'.space at_space).regions
        ≡ insert_sorted (recorded v.region_pool_used vaddr size flags type)
            (v.space at_space).regions)
    × ((s : ℕ) → s ≢ at_space → v'.space s ≡ v.space s)
MapOutcome v at_space vaddr size flags type false v' = (s : ℕ) → v'.space s ≡ v.space s

-- The outcome of a call that may fault.
abbrev Mapped : Vmm → ℕ → ℕ → ℕ → ℕ → RegionType → Option (Bool × Vmm) → Type 0
Mapped v at_space vaddr size flags type none = Unit {0}
Mapped v at_space vaddr size flags type (some r) =
    MapOutcome v at_space vaddr size flags type r.0 r.1

pub alloc_full : (v : Vmm) → leb max_regions v.region_pool_used ≡ true → alloc_region v ≡ (none, v)
unfolding alloc_region
alloc_full v full = rw full refl

pub alloc_room :
    (v : Vmm)
    → leb max_regions v.region_pool_used ≡ false
    → alloc_region v
      ≡ (some v.region_pool_used, record v { region_pool_used = v.region_pool_used + 1 })
unfolding alloc_region
alloc_room v room = rw room refl

record_region-Mapped :
    (v : Vmm) (m : Machine) (at_space vaddr size flags : ℕ) (type : RegionType)
    → AllClear vaddr size (v.space at_space).regions
    → Mapped v at_space vaddr size flags type
        (some (record_region (with_machine v m) at_space vaddr size flags type))
unfolding record_region store_region insert_region
record_region-Mapped v m at_space vaddr size flags type clear =
    elim (Bool-cases (leb max_regions v.region_pool_used)) [
      | inl full ↦ stored (none, with_machine v m) (alloc_full (with_machine v m) full) (λ s. refl)
      | inr room ↦
          stored
            (
              some v.region_pool_used,
              record (with_machine v m) { region_pool_used = v.region_pool_used + 1 },
            )
            (alloc_room (with_machine v m) room) (clear, ground arith, λ s d. ground arith)
    ]
  where
    stored :
        (r : Option ℕ × Vmm)
        → alloc_region (with_machine v m) ≡ r
        → Mapped v at_space vaddr size flags type
            (some (store_region r at_space vaddr size flags type))
        → Mapped v at_space vaddr size flags type
            (some (record_region (with_machine v m) at_space vaddr size flags type))
    stored r e p =
        subst
          (λ x.
            Mapped v at_space vaddr size flags type
              (some (store_region x at_space vaddr size flags type)))
          (sym e) p

frames-Mapped :
    (v : Vmm) (at_space vaddr size flags : ℕ) (type : RegionType) (o : Option (Option ℕ × Machine))
    → AllClear vaddr size (v.space at_space).regions
    → Mapped v at_space vaddr size flags type (elim o [
      | none ↦ none
      | some (none, m) ↦ some (record_region (with_machine v m) at_space vaddr size flags type)
      | some (some offset, m) ↦
          some (false, with_machine v (undo_frames (offset / page_size) 0 vaddr m))
    ])
frames-Mapped v at_space vaddr size flags type none clear = tt
frames-Mapped v at_space vaddr size flags type (some (none, m)) clear =
    record_region-Mapped v m at_space vaddr size flags type clear
frames-Mapped v at_space vaddr size flags type (some (some offset, m)) clear = λ s. refl

abbrev refused : ℕ → ℕ → ℕ → Bool
refused at_space vaddr size =
    (at_space == 0) || (not (bit_and vaddr 0xfff == 0) || not (bit_and size 0xfff == 0))

map_region-Mapped :
    (v : Vmm) (at_space vaddr size flags : ℕ) (type : RegionType)
    → Apart 0 (v.space at_space).regions
    → vaddr + size < u32_mod
    → Mapped v at_space vaddr size flags type (map_region v at_space vaddr size flags type)
unfolding map_region
map_region-Mapped v at_space vaddr size flags type a top =
    elim (Bool-cases (refused at_space vaddr size)) [
      | inl no' ↦ rw (no', map_region) (λ s. refl)
      | inr asked ↦ elim (Bool-cases (any_overlaps vaddr size (v.space at_space).regions)) [
        | inl meets ↦ rw (asked, meets, map_region) (λ s. refl)
        | inr clear ↦
            rw (asked, clear, map_region)
              (frames-Mapped v at_space vaddr size flags type _
                (any_overlaps_lem vaddr size 0 (v.space at_space).regions top a clear))
      ]
    ]

-- Below 4 GiB, where `vmm_map_region` answers: if it answers 0, the range met no region of the space, and its
-- region is inserted there and in no other space; if it answers -1, no space has changed.
pub map_region-MapOutcome :
    (v : Vmm) (at_space vaddr size flags : ℕ) (type : RegionType) (ok : Bool) (v' : Vmm)
    → Apart 0 (v.space at_space).regions
    → vaddr + size < u32_mod
    → map_region v at_space vaddr size flags type ≡ some (ok, v')
    → MapOutcome v at_space vaddr size flags type ok v'
map_region-MapOutcome v at_space vaddr size flags type ok v' a top e =
    subst (Mapped v at_space vaddr size flags type) e
      (map_region-Mapped v at_space vaddr size flags type a top)

MapOutcome-IsApart :
    (v : Vmm) (at_space vaddr size flags : ℕ) (type : RegionType) (ok : Bool) (v' : Vmm)
    → IsApart v
    → 0 < size
    → vaddr + size < u32_mod
    → MapOutcome v at_space vaddr size flags type ok v'
    → IsApart v'
MapOutcome-IsApart v at_space vaddr size flags type false v' a pos top m =
    λ s. subst (λ x. Apart 0 x.regions) (sym (m s)) (a s)
MapOutcome-IsApart v at_space vaddr size flags type true v' a pos top m = λ s.
    elim (ℕ_discrete s at_space) [
      | yes same ↦
          subst (λ t. Apart 0 (v'.space t).regions) (sym same)
            (subst (Apart 0) (sym m.1) (
              insert_sorted-Apart (recorded v.region_pool_used vaddr size flags type)
                (v.space at_space).regions pos top m.0 (a at_space)))
      | no other ↦ subst (λ x. Apart 0 x.regions) (sym (m.2 s other)) (a s)
    ]

-- Below 4 GiB and for a size above 0, `vmm_map_region` keeps the regions of every space in order and apart.
pub map_region-IsApart :
    (v : Vmm) (at_space vaddr size flags : ℕ) (type : RegionType) (ok : Bool) (v' : Vmm)
    → IsApart v
    → 0 < size
    → vaddr + size < u32_mod
    → map_region v at_space vaddr size flags type ≡ some (ok, v')
    → IsApart v'
map_region-IsApart v at_space vaddr size flags type ok v' a pos top e =
    MapOutcome-IsApart v at_space vaddr size flags type ok v' a pos top
      (map_region-MapOutcome v at_space vaddr size flags type ok v' (a at_space) top e)

remove_region-Apart :
    (s : Space) (slot : ℕ) → Apart 0 s.regions → Apart 0 (remove_region s slot).regions
unfolding remove_region
remove_region-Apart s slot a = elim (Bool-cases (is_linked slot s.regions)) [
  | inl linked ↦ rw linked (unlink-Apart slot 0 s.regions a)
  | inr not_linked ↦ rw not_linked a
]

unlinked :
    (v : Vmm) (at_space slot s : ℕ)
    → IsApart v
    → Apart 0 (update v.space at_space (remove_region (v.space at_space) slot) s).regions
unlinked v at_space slot s a = elim (Bool-cases (at_space == s)) [
  | inl same ↦ rw same (remove_region-Apart (v.space at_space) slot (a at_space))
  | inr other ↦ rw other (a s)
]

unmapped_found :
    (v : Vmm) (at_space : ℕ) (r : Region) → IsApart v → IsApart (unmap_found v at_space r).1
unfolding unmap_found
unmapped_found v at_space r a = elim (Bool-cases (leb (ordinal r.type) 5)) [
  | inl kernel ↦ rw kernel a
  | inr user ↦ rw user (λ s. unlinked v at_space r.slot s a)
]

-- `vmm_unmap_region` keeps the regions of every space in order and apart.
pub unmap_region-IsApart :
    (v : Vmm) (at_space vaddr : ℕ) → IsApart v → IsApart (unmap_region v at_space vaddr).1
unfolding unmap_region
unmap_region-IsApart v at_space vaddr a = elim (Bool-cases (at_space == 0)) [
  | inl null ↦ subst (λ r. IsApart r.1) (sym (ap (λ b. if b then (false, v) else rest) null)) a
  | inr there ↦
      subst (λ r. IsApart r.1) (sym (ap (λ b. if b then (false, v) else rest) there))
        (found (region_at vaddr (v.space at_space).regions))
]
  where
    rest : Bool × Vmm
    rest = elim (region_at vaddr (v.space at_space).regions) [
      | none ↦ (false, v)
      | some r ↦ unmap_found v at_space r
    ]

    found :
        (o : Option Region)
        → IsApart
            (elim o as (λ x. Bool × Vmm) [
              | none ↦ (false, v)
              | some r ↦ unmap_found v at_space r
            ]).1
    found none = a
    found (some r) = unmapped_found v at_space r a
