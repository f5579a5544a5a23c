-- ===== src/Vmm/Recycle.antt =====
-- kernel/vmm.c: `vmm_unmap_region` of a region that `vmm_map_region` has recorded.
use tuple_os.Common.{
  ℕ, zero, suc, ◌+◌, ◌*◌, ◌%◌, ◌≤◌, ◌<◌, ◌≡◌, ◌≢◌, refl, sym, ◌∙◌, true, false, some, arith, ◌==◌,
  u32_mod, page_size, List, [], ◌∷◌, ltb, Bool-cases, inl, inr, add32,
}
use tuple_os.Paging.{Machine, get_physical}
use tuple_os.Vmm.{Region, insert_sorted, insert_after, unlink, is_linked, undo_frames}
use tuple_os.Vmm.Spaces.{region_at, unmap_frames}
use tuple_os.Vmm.Regions.{Apart, AllClear}
use tuple_os.Vmm.Undo.{Holds, next_state, behind}

-- No region of the list has this slot.
abbrev pub Fresh : ℕ → List Region → Type 0
Fresh slot [] = Unit {0}
Fresh slot (x ∷ xs) = (x.slot ≢ slot) × Fresh slot xs

unlink-insert_after :
    (r : Region) (xs : List Region) → Fresh r.slot xs → unlink r.slot (insert_after r xs) ≡ xs
unfolding unlink insert_after
unlink-insert_after r [] f = ground arith
unlink-insert_after r (x ∷ xs) f =
    let other : (x.slot == r.slot) ≡ false = ground (arith, f.0) in
    let self : (r.slot == r.slot) ≡ true = ground arith in
    elim (Bool-cases (ltb x.base r.base)) [
      | inl before ↦ rw (before, other, unlink-insert_after r xs f.1) refl
      | inr after ↦ rw (after, self) refl
    ]

-- A region that was inserted under a fresh slot and is taken out leaves the list as it was.
pub unlink-insert_sorted :
    (r : Region) (xs : List Region) → Fresh r.slot xs → unlink r.slot (insert_sorted r xs) ≡ xs
unfolding unlink insert_sorted
unlink-insert_sorted r [] f = ground arith
unlink-insert_sorted r (x ∷ xs) f =
    let other : (x.slot == r.slot) ≡ false = ground (arith, f.0) in
    let self : (r.slot == r.slot) ≡ true = ground arith in
    elim (Bool-cases (ltb r.base x.base)) [
      | inl before ↦ rw (before, self) refl
      | inr after ↦ rw (after, other, unlink-insert_after r xs f.1) refl
    ]

is_linked-insert_after :
    (r : Region) (xs : List Region) → is_linked r.slot (insert_after r xs) ≡ true
unfolding is_linked insert_after
is_linked-insert_after r [] = ground arith
is_linked-insert_after r (x ∷ xs) = ground (arith, is_linked-insert_after r xs)

pub is_linked-insert_sorted :
    (r : Region) (xs : List Region) → is_linked r.slot (insert_sorted r xs) ≡ true
unfolding is_linked insert_sorted
is_linked-insert_sorted r [] = ground arith
is_linked-insert_sorted r (x ∷ xs) = ground (arith, is_linked-insert_after r xs)

region_at-insert_after :
    (r : Region) (lo : ℕ) (xs : List Region)
    → 0 < r.size
    → Apart lo xs
    → AllClear r.base r.size xs
    → region_at r.base (insert_after r xs) ≡ some r
unfolding region_at insert_after
region_at-insert_after r lo [] pos a c = ground arith
region_at-insert_after r lo (x ∷ xs) pos a c =
    let other : (x.base == r.base) ≡ false = ground arith in
    let self : (r.base == r.base) ≡ true = ground arith in
    elim (Bool-cases (ltb x.base r.base)) [
      | inl before ↦
          rw (before, other, region_at-insert_after r (x.base + x.size) xs pos a.3 c.1) refl
      | inr after ↦ rw (after, self) refl
    ]

-- The region at its base is the one that was inserted.
pub region_at-insert_sorted :
    (r : Region) (xs : List Region)
    → 0 < r.size
    → Apart 0 xs
    → AllClear r.base r.size xs
    → region_at r.base (insert_sorted r xs) ≡ some r
unfolding region_at insert_sorted
region_at-insert_sorted r [] pos a c = ground arith
region_at-insert_sorted r (x ∷ xs) pos a c =
    let other : (x.base == r.base) ≡ false = ground arith in
    let self : (r.base == r.base) ≡ true = ground arith in
    elim (Bool-cases (ltb r.base x.base)) [
      | inl before ↦ rw (before, self) refl
      | inr after ↦
          rw (after, other, region_at-insert_after r (x.base + x.size) xs pos a.3 c.1) refl
    ]

-- Where every page of the range is mapped, the loop of `vmm_unmap_region` is that of the rollback.
pub unmap_frames-undo_frames :
    (n offset vaddr : ℕ) (m : Machine)
    → vaddr % 4096 ≡ 0
    → offset % 4096 ≡ 0
    → vaddr + offset + n * 4096 ≤ u32_mod
    → Holds m (vaddr + offset) (vaddr + offset + n * 4096)
    → ((w : ℕ) → vaddr + offset ≤ w → w < vaddr + offset + n * 4096 → get_physical m w ≢ 0)
    → unmap_frames n offset vaddr m ≡ undo_frames n offset vaddr m
unfolding unmap_frames undo_frames
unmap_frames-undo_frames zero offset vaddr m a b fits h mapped = refl
unmap_frames-undo_frames (suc n) offset vaddr m a b fits h mapped =
    let at : add32 vaddr offset ≡ vaddr + offset = omega arith in
    let there : (get_physical m (add32 vaddr offset) == 0) ≡ false =
      ground (arith, mapped (add32 vaddr offset) (omega arith) (omega arith)) in
    let p = behind n offset vaddr m a b fits h in
    let m1 : Machine = next_state (add32 vaddr offset) m in
    let later : (w : ℕ)
        → vaddr + (offset + page_size) ≤ w
        → w < vaddr + (offset + page_size) + n * 4096
        → get_physical m1 w ≢ 0 =
      λ w lo hi e. mapped w (omega arith) (omega arith) (sym (p.kept w (omega arith) lo) ∙ e) in
    let same =
      unmap_frames-undo_frames n (offset + page_size) vaddr m1 a (omega arith) (omega arith) p.rest
        later in
    rw there (rw there at same)
