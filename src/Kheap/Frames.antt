-- ===== src/Kheap/Frames.antt =====
-- kernel/kheap.c: the loop that maps fresh pages succeeds where enough frames are free in a row.
use tuple_os.Common.{
  ℕ, zero, suc, ◌+◌, ◌*◌, ◌/◌, ◌≤◌, ◌<◌, ◌≡◌, ◌≢◌, refl, sym, ap, ◌∙◌, true, false, arith, Option,
  none, some, Bool-cases, inl, inr, ◌==◌, add32, page_size,
}
use native.Mathlib.Decide.{dec_lt}
use mathlib.Core.Path.{subst}
use mathlib.Core.Bool.{false≢true}
use tuple_os.Pmm
use tuple_os.Pmm.{Pmm}
use tuple_os.Pmm.Bitmap.{is_free, IsBytes}
use tuple_os.Pmm.Scan.{scan_limit}
use tuple_os.Pmm.Frames.{Allocates, IsSmall, alloc_frame-Allocates}
use tuple_os.Paging.{
  Machine, or_null, is_absent, pd_index, ensure_table, add_table, write_entry, map_page,
}
use tuple_os.Kheap.{map_pages}

-- The frames from `lo` up to `hi` are free and within the reach of the search, and frame 0 is not free.
pub record Run (p : Pmm) (lo hi : ℕ) : Type 0 where
  pub bytes : IsBytes p.bitmap
  pub counted : IsSmall p
  pub null : is_free p.bitmap 0 ≡ false
  pub free : (g : ℕ) → lo ≤ g → g < hi → is_free p.bitmap g ≡ true
  pub reach : hi ≤ scan_limit p

pub Run-shorter : (p : Pmm) (lo hi : ℕ) → Run p lo hi → Run p (lo + 1) hi
Run-shorter p lo hi r = record {
  bytes = r.bytes;
  counted = r.counted;
  null = r.null;
  free = λ g a b. r.free g (omega arith) b;
  reach = r.reach;
}

-- An allocation takes a frame below the run or its first one.
taken-Run :
    (p : Pmm) (lo hi : ℕ) (o : Option ℕ) (q : Pmm)
    → Run p lo hi
    → lo < hi
    → Allocates p o q
    → (or_null o ≢ 0) × Run q (lo + 1) hi
taken-Run p lo hi none q r room a =
    absurd (false≢true (sym (a.1 lo (omega (arith, r.reach))) ∙ r.free lo (omega arith) room))
taken-Run p lo hi (some addr) q r room a =
    let t = a.1 in
    let low : addr / 4096 ≤ lo = elim (dec_lt lo (addr / 4096)) [
      | yes above ↦ absurd (false≢true (sym (t.lowest lo above) ∙ r.free lo (omega arith) room))
      | no below ↦ omega arith
    ] in
    let some_frame : addr / 4096 ≢ 0 =
      λ e. false≢true (sym r.null ∙ ap (is_free p.bitmap) (sym e) ∙ t.was_free) in
    (
      omega (arith, some_frame, a.0),
      record {
        bytes = t.bytes;
        counted = omega (arith, t.total, r.counted);
        null = ground (arith, t.frames 0, r.null);
        free = λ g x y. ground (arith, t.frames g, r.free g (omega arith) y, low);
        reach = omega (arith, t.total, r.reach);
      },
    )

pub alloc-Run :
    (p : Pmm) (lo hi : ℕ)
    → Run p lo hi
    → lo < hi
    → (or_null (Pmm.alloc_frame p).0 ≢ 0) × Run (Pmm.alloc_frame p).1 (lo + 1) hi
alloc-Run p lo hi r room =
    taken-Run p lo hi (Pmm.alloc_frame p).0 (Pmm.alloc_frame p).1 r room
      (alloc_frame-Allocates p r.bytes r.counted)

low_frame :
    (p : Pmm) (lo hi : ℕ) (o : Option ℕ) (q : Pmm)
    → Run p lo hi
    → lo < hi
    → Allocates p o q
    → or_null o < (lo + 1) * 4096
low_frame p lo hi none q r room a = omega arith
low_frame p lo hi (some addr) q r room a = elim (dec_lt lo (addr / 4096)) [
  | yes above ↦ absurd (false≢true (sym (a.1.lowest lo above) ∙ r.free lo (omega arith) room))
  | no below ↦ omega (arith, a.0)
]

-- The next frame is no higher than the first one of the run.
pub alloc-low :
    (p : Pmm) (lo hi : ℕ) → Run p lo hi → lo < hi → or_null (Pmm.alloc_frame p).0 < (lo + 1) * 4096
alloc-low p lo hi r room =
    low_frame p lo hi (Pmm.alloc_frame p).0 (Pmm.alloc_frame p).1 r room
      (alloc_frame-Allocates p r.bytes r.counted)

add_table_pmm :
    (s : Machine) (i flags : ℕ) → (add_table s i flags).0.pmm ≡ (Pmm.alloc_frame s.pmm).1
unfolding add_table
add_table_pmm s i flags = elim (Bool-cases (or_null (Pmm.alloc_frame s.pmm).0 == 0)) [
  | inl e ↦ rw e refl
  | inr e ↦ rw e refl
]

pub map_page_pmm :
    (s : Machine) (v phys flags : ℕ)
    → (map_page s v phys flags).pmm ≡ (ensure_table s (pd_index v) flags).0.pmm
unfolding map_page write_entry
map_page_pmm s v phys flags = elim (Bool-cases (ensure_table s (pd_index v) flags).1) [
  | inl e ↦ rw e refl
  | inr e ↦ rw e refl
]

pub ensure_table-Run :
    (s : Machine) (i flags lo hi : ℕ)
    → Run s.pmm lo hi
    → lo < hi
    → Run (ensure_table s i flags).0.pmm (lo + 1) hi
unfolding ensure_table
ensure_table-Run s i flags lo hi r room = elim (Bool-cases (is_absent (s.page_directory i))) [
  | inl e ↦ rw (e, add_table_pmm s i flags) (alloc-Run s.pmm lo hi r room).1
  | inr e ↦ rw e (Run-shorter s.pmm lo hi r)
]

-- Where two frames for each page are free in a row, the pages are mapped.
pub map_pages-Run :
    (n i base : ℕ) (m : Machine) (lo hi : ℕ)
    → Run m.pmm lo hi
    → lo + 2 * n ≤ hi
    → (map_pages n i base m).1 ≡ true
unfolding map_pages
map_pages-Run zero i base m lo hi r room = refl
map_pages-Run (suc n) i base m lo hi r room =
    let first = alloc-Run m.pmm lo hi r (omega arith) in
    let there : (or_null (Pmm.alloc_frame m.pmm).0 == 0) ≡ false = ground arith in
    let taken : Machine = record m { pmm = (Pmm.alloc_frame m.pmm).1 } in
    let v = add32 base i in
    let phys = or_null (Pmm.alloc_frame m.pmm).0 in
    rw there (
      map_pages-Run n (i + page_size) base (map_page taken v phys 3) (lo + 1 + 1) hi
        (subst (λ p. Run p (lo + 1 + 1) hi) (sym (map_page_pmm taken v phys 3))
          (ensure_table-Run taken (pd_index v) 3 (lo + 1) hi first.1 (omega arith)))
        (omega arith))
