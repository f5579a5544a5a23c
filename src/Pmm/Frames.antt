-- ===== src/Pmm/Frames.antt =====
-- kernel/pmm.c: `pmm_alloc_frame` and `pmm_free_frame` seen as operations on the set of free frames.
use tuple_os.Common.{
  First, ℕ, ◌*◌, ◌/◌, ◌%◌, ◌≤◌, ◌<◌, ◌≡◌, refl, Bool, true, false, arith, ◌==◌, if◌then◌else◌,
  Option, none, some, ltb, add32, sub32, u32_mod, mul32, ◌&&◌,
}
use tuple_os.Pmm.{
  Pmm, alloc_frame, free_frame, bitmap_first_free, bitmap_set, bitmap_clear, max_frames,
}
use tuple_os.Pmm.Bitmap.{
  is_free, IsBytes, is_free-bitmap_set, is_free-bitmap_clear, bitmap_set-IsBytes,
  bitmap_clear-IsBytes,
}
use tuple_os.Pmm.Scan.{scan_limit, bitmap_first_free-First}

-- Frame `f` became used, and nothing else changed in the set of free frames.
pub record Takes (p : Pmm) (f : ℕ) (q : Pmm) : Type 0 where
  pub was_free : is_free p.bitmap f ≡ true
  pub below_limit : f < scan_limit p
  pub lowest : (g : ℕ) → g < f → is_free p.bitmap g ≡ false
  pub frames : (g : ℕ) → is_free q.bitmap g ≡ (if f == g then false else is_free p.bitmap g)
  pub used : q.used_frames ≡ add32 p.used_frames 1
  pub total : q.total_frames ≡ p.total_frames
  pub bytes : IsBytes q.bitmap

abbrev pub Allocates : Pmm → Option ℕ → Pmm → Type 0
Allocates p none q = (q ≡ p) × ((g : ℕ) → g < scan_limit p → is_free p.bitmap g ≡ false)
Allocates p (some addr) q = (addr ≡ addr / 4096 * 4096) × Takes p (addr / 4096) q

-- A caller that the frame numbers cannot confuse: the map describes at most 4 GiB.
abbrev pub IsSmall : Pmm → Type 0
IsSmall p = p.total_frames ≤ 0x10_0000

-- Where the bitmap holds bytes and total_frames is at most 2 ^ 20, `pmm_alloc_frame` takes the
-- lowest free frame below `total_frames / 8 * 8`, marks that frame and no other, and counts it; it
-- returns NULL and changes nothing exactly when no frame below that limit is free.
pub alloc_frame-Allocates :
    (p : Pmm) → IsBytes p.bitmap → IsSmall p → Allocates p (alloc_frame p).0 (alloc_frame p).1
unfolding alloc_frame
alloc_frame-Allocates p v small = outcome (bitmap_first_free p) (bitmap_first_free-First p)
  where
    outcome :
        (o : Option ℕ)
        → First (is_free p.bitmap) 0 (scan_limit p) o
        → let r : Option ℕ × Pmm = elim o [
          | none ↦ (none, p)
          | some frame ↦ (
            some (mul32 frame 4096),
            record p { bitmap = bitmap_set p.bitmap frame; used_frames = add32 p.used_frames 1 },
          )
        ] in
          Allocates p r.0 r.1
    outcome none h = (refl, λ g lt. h g (omega arith) lt)
    outcome (some f) h =
        let same : f * 4096 % u32_mod / 4096 ≡ f = omega arith in
        (
          omega arith,
          rw same (record {
            was_free = h.2;
            below_limit = h.1;
            lowest = λ g lt. h.3 g (omega arith) lt;
            frames = λ g. is_free-bitmap_set p.bitmap f g v;
            used = refl;
            total = refl;
            bytes = bitmap_set-IsBytes p.bitmap f v;
          }),
        )

-- The frames that `pmm_free_frame` accepts.
abbrev pub in_table : ℕ → Bool
in_table addr = ltb (addr / 4096) max_frames

-- `pmm_free_frame` makes the frame of its address free, unless the frame is past the table, and
-- leaves every other frame alone; the count goes down exactly when the frame was in use.
pub free_frame-frees :
    (p : Pmm) (addr : ℕ)
    → IsBytes p.bitmap
    → ((g : ℕ)
        → is_free (free_frame p addr).bitmap g
          ≡ (if in_table addr && (addr / 4096 == g) then true else is_free p.bitmap g))
      × ((free_frame p addr).used_frames ≡ (
          if in_table addr && (if is_free p.bitmap (addr / 4096) then false else true)
          then sub32 p.used_frames 1
          else p.used_frames))
      × ((free_frame p addr).total_frames ≡ p.total_frames)
      × IsBytes (free_frame p addr).bitmap
unfolding free_frame is_free
free_frame-frees p addr v = (
  λ g. ground (arith, frees g),
  ground arith,
  ground arith,
  λ i. ground (arith, v i, bitmap_clear-IsBytes p.bitmap (addr / 4096) v i),
)
  where
    frees :
        (g : ℕ)
        → is_free (bitmap_clear p.bitmap (addr / 4096)) g
          ≡ (if addr / 4096 == g then true else is_free p.bitmap g)
    frees g = is_free-bitmap_clear p.bitmap (addr / 4096) g v
