-- ===== src/Vmm/Cycle.antt =====
-- kernel/vmm.c: a `vmm_map_region` and the `vmm_unmap_region` of its range.
use tuple_os.Common.{
  ℕ, ◌+◌, ◌*◌, ◌%◌, ◌≤◌, ◌<◌, ◌≡◌, ◌≢◌, refl, sym, ap, ◌∙◌, true, false, some, arith, ◌==◌, u32_mod,
  leb, List,
}
use mathlib.Core.Path.{subst}
use native.Mathlib.Decide.{ℕ_discrete}
use mathlib.Core.Bool.{false≢true}
use tuple_os.Pmm.Bitmap.{is_free}
use tuple_os.Paging.{Machine, get_physical}
use tuple_os.Paging.Tables.{IsValid}
use tuple_os.Kheap.Frames.{Run}
use tuple_os.Vmm.{
  Vmm, Region, RegionType, ordinal, machine, map_region, any_overlaps, insert_sorted, unlink,
  remove_region, is_linked, undo_frames,
}
use tuple_os.Vmm.Spaces.{unmap_region, unmap_found, region_at, unmap_frames, page_count}
use tuple_os.Vmm.Regions.{Apart, AllClear}
use tuple_os.Vmm.Lists.{recorded, map_region-MapOutcome}
use tuple_os.Vmm.Pages.{Pages}
use tuple_os.Vmm.Grant.{IsOutside, map_region-Pages}
use tuple_os.Vmm.Undo.{Holds, Undone, Pages-Holds, undo_frames-Undone}
use tuple_os.Vmm.Recycle.{
  Fresh, unlink-insert_sorted, is_linked-insert_sorted, region_at-insert_sorted,
  unmap_frames-undo_frames,
}

-- What `vmm_unmap_region` leaves of a region that was recorded in this space.
record Removed (v : Vmm) (at_space vaddr n : ℕ) (xs : List Region) : Type 0 where
  after : Vmm
  runs : unmap_region v at_space vaddr ≡ (true, after)
  regions : (after.space at_space).regions ≡ xs
  others : (s : ℕ) → s ≢ at_space → after.space s ≡ v.space s
  pages : machine after ≡ unmap_frames n 0 vaddr (machine v)

removed :
    (v : Vmm) (at_space n : ℕ) (r : Region) (xs : List Region)
    → at_space ≢ 0
    → r.size ≡ n * 4096
    → 0 < n
    → 5 < ordinal r.type
    → Apart 0 xs
    → AllClear r.base r.size xs
    → Fresh r.slot xs
    → (v.space at_space).regions ≡ insert_sorted r xs
    → Removed v at_space r.base n xs
unfolding unmap_region unmap_found remove_region
removed v at_space n r xs space size pos user apart clear fresh e =
    let there : (at_space == 0) ≡ false = ground arith in
    let found : region_at r.base (v.space at_space).regions ≡ some r =
      ap (region_at r.base) e ∙ region_at-insert_sorted r xs (omega (arith, size)) apart clear in
    let mine : leb (ordinal r.type) 5 ≡ false = ground (arith, user) in
    let count : page_count r.size ≡ n = omega (arith, size) in
    let linked : is_linked r.slot (v.space at_space).regions ≡ true =
      ap (is_linked r.slot) e ∙ is_linked-insert_sorted r xs in
    let gone : unlink r.slot (v.space at_space).regions ≡ xs =
      ap (unlink r.slot) e ∙ unlink-insert_sorted r xs fresh in
    record {
      after = (unmap_found v at_space r).1;
      runs = rw (there, found, mine) refl;
      regions = rw (mine, linked) (ground (arith, gone));
      others = λ s other. rw mine (ground (arith, other));
      pages = rw (mine, count) refl;
    }

-- No page of the range lies in frame 0.
mapped_pages :
    (m : Machine) (n vaddr : ℕ) (mid : Machine)
    → is_free m.pmm.bitmap 0 ≡ false
    → Pages m vaddr (vaddr + n * 4096) mid
    → (w : ℕ) → vaddr ≤ w
    → w < vaddr + n * 4096
    → get_physical mid w ≢ 0
mapped_pages m n vaddr mid null p w lo hi e =
    let (f, at_f, free, _, _) = p.inside w lo hi in
    let zeroth : f ≡ 0 = omega (arith, at_f, e) in
    false≢true (sym null ∙ ap (is_free m.pmm.bitmap) (sym zeroth) ∙ free)

unmapped_pages :
    (m : Machine) (n vaddr : ℕ) (mid : Machine)
    → is_free m.pmm.bitmap 0 ≡ false
    → vaddr % 4096 ≡ 0
    → vaddr + n * 4096 ≤ u32_mod
    → Pages m vaddr (vaddr + n * 4096) mid
    → Undone mid vaddr (vaddr + n * 4096) (unmap_frames n 0 vaddr mid)
unmapped_pages m n vaddr mid null a fits p =
    let at : vaddr + 0 ≡ vaddr = omega arith in
    let held : Holds mid (vaddr + 0) (vaddr + 0 + n * 4096) =
      subst (λ x. Holds mid x (x + n * 4096)) (sym at) (Pages-Holds m _ _ mid p) in
    let same : unmap_frames n 0 vaddr mid ≡ undo_frames n 0 vaddr mid =
      unmap_frames-undo_frames n 0 vaddr mid a refl (omega arith) held
        (λ w lo hi. mapped_pages m n vaddr mid null p w (omega arith) (omega arith)) in
    let undone : Undone mid (vaddr + 0) (vaddr + 0 + n * 4096) (undo_frames n 0 vaddr mid) =
      undo_frames-Undone n 0 vaddr mid a refl (omega arith) held in
    subst (Undone mid vaddr (vaddr + n * 4096)) (sym same)
      (subst (λ x. Undone mid x (x + n * 4096) (undo_frames n 0 vaddr mid)) at undone)

-- Under the conditions on which `vmm_map_region` maps a range of at least one page, for a type of region of
-- users, in a space whose regions are in order and apart and not in the next slot of the pool: a
-- `vmm_unmap_region` of the range behind it answers 0, all spaces have the regions that they had,
-- the range is unmapped, the addresses outside it keep their translation, and the frames of its pages
-- that `pmm_free_frame` accepts are free again.
pub unmap_region-map_region :
    (v : Vmm) (at_space vaddr n flags : ℕ) (type : RegionType) (lo hi : ℕ)
    → IsValid (machine v)
    → Run (machine v).pmm lo hi
    → lo + 2 * n ≤ hi
    → hi ≤ 1024
    → vaddr % 4096 ≡ 0
    → vaddr + n * 4096 < u32_mod
    → IsOutside vaddr (n * 4096)
    → at_space ≢ 0
    → any_overlaps vaddr (n * 4096) (v.space at_space).regions ≡ false
    → v.region_pool_used < 256
    → 0 < n
    → 5 < ordinal type
    → Apart 0 (v.space at_space).regions
    → Fresh v.region_pool_used (v.space at_space).regions
    → (v1 : Vmm) × (v2 : Vmm) × (map_region v at_space vaddr (n * 4096) flags type
        ≡ some (true, v1))
      × (unmap_region v1 at_space vaddr ≡ (true, v2))
      × ((s : ℕ) → (v2.space s).regions ≡ (v.space s).regions)
      × Pages (machine v) vaddr (vaddr + n * 4096) (machine v1)
      × Undone (machine v1) vaddr (vaddr + n * 4096) (machine v2)
unmap_region-map_region v at_space vaddr n flags type lo hi valid run room reach a fits outside
      space clear pool pos user apart fresh =
    let (v1, runs, pages) =
      map_region-Pages v at_space vaddr n flags type lo hi valid run room reach a (omega arith)
        outside space clear pool in
    let (clean, inserted, others) =
      map_region-MapOutcome v at_space vaddr (n * 4096) flags type true v1 apart fits runs in
    let r =
      removed v1 at_space n (recorded v.region_pool_used vaddr (n * 4096) flags type)
        (v.space at_space).regions space refl pos user apart clean fresh inserted in
    (
      v1,
      r.after,
      runs,
      r.runs,
      λ s. elim (ℕ_discrete s at_space) [
        | yes here ↦
            ap (λ x. (r.after.space x).regions) here
            ∙ r.regions
            ∙ ap (λ x. (v.space x).regions) (sym here)
        | no other ↦ ap (λ x. x.regions) (r.others s other ∙ others s other)
      ],
      pages,
      subst (Undone (machine v1) vaddr (vaddr + n * 4096)) (sym r.pages)
          (unmapped_pages (machine v) n vaddr (machine v1) run.null a (omega arith) pages),
    )
