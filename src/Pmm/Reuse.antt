-- ===== src/Pmm/Reuse.antt =====
-- kernel/pmm.c: allocation and release together, and the accesses at the end of the bitmap.
use tuple_os.Common.{
  ℕ, ◌*◌, ◌/◌, ◌≤◌, ◌<◌, ◌≡◌, true, false, arith, Option, none, some, u32_mod, ◌≢◌, sym, ◌∙◌,
}
use native.Mathlib.Decide.{dec_lt}
use mathlib.Core.Option.{some-injective}
use mathlib.Core.Bool.{false≢true}
use tuple_os.Pmm.{Pmm, alloc_frame, free_frame, bitmap_clear, max_frames, bitmap_bytes}
use tuple_os.Pmm.Bitmap.{is_free, IsBytes, is_free_byte}
use tuple_os.Pmm.Scan.{scan_limit}
use tuple_os.Pmm.Frames.{Allocates, IsSmall, alloc_frame-Allocates, free_frame-frees}

-- Where the bitmap holds bytes, total_frames is at most 32786 and the count of used frames is a
-- 32-bit number: freeing the frame that `pmm_alloc_frame` has just answered gives back the set of
-- free frames and both counts.
pub free-alloc :
    (p : Pmm) (addr : ℕ)
    → IsBytes p.bitmap
    → p.total_frames ≤ max_frames
    → p.used_frames < u32_mod
    → (alloc_frame p).0 ≡ some addr
    → let q = free_frame (alloc_frame p).1 addr in
      ((g : ℕ) → is_free q.bitmap g ≡ is_free p.bitmap g)
      × (q.used_frames ≡ p.used_frames)
      × (q.total_frames ≡ p.total_frames)
free-alloc p addr v small used e =
    restored (alloc_frame p).0 e (alloc_frame-Allocates p v (omega arith))
  where
    restored :
        (o : Option ℕ)
        → o ≡ some addr
        → Allocates p o (alloc_frame p).1
        → let q = free_frame (alloc_frame p).1 addr in
          ((g : ℕ) → is_free q.bitmap g ≡ is_free p.bitmap g)
          × (q.used_frames ≡ p.used_frames)
          × (q.total_frames ≡ p.total_frames)
    restored none h a = cc
    restored (some b) h a =
        let same : b ≡ addr = ground arith in
        let frees = free_frame-frees (alloc_frame p).1 addr a.1.bytes in
        (
          λ g. ground (arith, same, frees.0 g, a.1.frames g, a.1.was_free, a.1.below_limit),
          ground (arith, same, frees.1, a.1.frames (addr / 4096), a.1.used, a.1.below_limit),
          ground (arith, frees.2, a.1.total),
        )

past_the_table : (p : Pmm) (addr : ℕ) → max_frames ≤ addr / 4096 → free_frame p addr ≡ p
unfolding free_frame
past_the_table p addr h = ground arith

free_frame_of_free :
    (p : Pmm) (addr : ℕ) → is_free p.bitmap (addr / 4096) ≡ true → free_frame p addr ≡ p
unfolding free_frame is_free
free_frame_of_free p addr h = ground arith

-- Freeing a frame twice is freeing it once: the second call finds the bit clear.
pub free_frame_twice :
    (p : Pmm) (addr : ℕ)
    → IsBytes p.bitmap
    → free_frame (free_frame p addr) addr ≡ free_frame p addr
free_frame_twice p addr v = elim (dec_lt (addr / 4096) max_frames) [
  | yes h ↦
      free_frame_of_free (free_frame p addr) addr
        (ground (arith, (free_frame-frees p addr v).0 (addr / 4096)))
  | no h ↦ past_the_table (free_frame p addr) addr (omega arith)
]

-- Any number of calls of `pmm_alloc_frame` and `pmm_free_frame`, in any order.
pub data Calls : Pmm → Pmm → Type 0 where
  done : {p : Pmm} → Calls p p
  alloc : {p q : Pmm} → Calls (alloc_frame p).1 q → Calls p q
  free : {p q : Pmm} → (addr : ℕ) → Calls (free_frame p addr) q → Calls p q

-- Frame `g` is free, out of the reach of the search, and not what it answers.
pub record OutOfReach (p : Pmm) (g : ℕ) : Type 0 where
  pub bytes : IsBytes p.bitmap
  pub small : IsSmall p
  pub above : scan_limit p ≤ g
  pub is_left : is_free p.bitmap g ≡ true

allocated-OutOfReach :
    (p : Pmm) (g : ℕ) (o : Option ℕ) (q : Pmm)
    → OutOfReach p g
    → Allocates p o q
    → OutOfReach q g × ((addr : ℕ) → o ≡ some addr → addr / 4096 ≢ g)
allocated-OutOfReach p g none q r a = (rw a.0 r, λ addr e. cc)
allocated-OutOfReach p g (some b) q r a = (
  record {
    bytes = a.1.bytes;
    small = rw a.1.total r.small;
    above = omega (arith, a.1.total, r.above);
    is_left = ground (arith, a.1.frames g, a.1.below_limit, r.above, r.is_left);
  },
  λ addr e.
      let same : b ≡ addr = some-injective _ _ e in omega (arith, same, a.1.below_limit, r.above),
)

alloc-OutOfReach :
    (p : Pmm) (g : ℕ)
    → OutOfReach p g
    → OutOfReach (alloc_frame p).1 g
      × ((addr : ℕ) → (alloc_frame p).0 ≡ some addr → addr / 4096 ≢ g)
alloc-OutOfReach p g r =
    allocated-OutOfReach p g (alloc_frame p).0 (alloc_frame p).1 r
      (alloc_frame-Allocates p r.bytes r.small)

free-OutOfReach : (p : Pmm) (g addr : ℕ) → OutOfReach p g → OutOfReach (free_frame p addr) g
free-OutOfReach p g addr r =
    let f = free_frame-frees p addr r.bytes in
    record {
      bytes = f.3;
      small = omega (arith, f.2, r.small);
      above = omega (arith, f.2, r.above);
      is_left = ground (arith, f.0 g, r.is_left);
    }

-- Where the bitmap holds bytes and total_frames is at most 2 ^ 20: a free frame at or above
-- `total_frames / 8 * 8` is never handed out. Whatever calls of `pmm_alloc_frame` and `pmm_free_frame` come,
-- it stays free, and the next `pmm_alloc_frame` does not answer it.
pub alloc_frame_misses :
    (p : Pmm) (g : ℕ) (q : Pmm)
    → IsBytes p.bitmap
    → IsSmall p
    → scan_limit p ≤ g
    → is_free p.bitmap g ≡ true
    → Calls p q
    → (is_free q.bitmap g ≡ true) × ((addr : ℕ) → (alloc_frame q).0 ≡ some addr → addr / 4096 ≢ g)
alloc_frame_misses p g q v small above left calls =
    along p q calls (record { bytes = v; small = small; above = above; is_left = left })
  where
    along :
        (p q : Pmm)
        → Calls p q
        → OutOfReach p g
        → (is_free q.bitmap g ≡ true)
          × ((addr : ℕ) → (alloc_frame q).0 ≡ some addr → addr / 4096 ≢ g)
    along p _ done r = (r.is_left, (alloc-OutOfReach p g r).1)
    along p q (alloc rest) r = along (alloc_frame p).1 q rest (alloc-OutOfReach p g r).0
    along p q (free addr rest) r = along (free_frame p addr) q rest (free-OutOfReach p g addr r)

-- The two frame numbers 32784 and 32785 pass the guard of `pmm_free_frame`, but their byte is the one
-- behind the array: if its bit is set there, that byte of other data is changed.
pub free_frame_past_bitmap :
    (p : Pmm) (addr : ℕ)
    → IsBytes p.bitmap
    → bitmap_bytes * 8 ≤ addr / 4096
    → addr / 4096 < max_frames
    → is_free p.bitmap (addr / 4096) ≡ false
    → (free_frame p addr).bitmap bitmap_bytes ≢ p.bitmap bitmap_bytes
free_frame_past_bitmap p addr v above in_table' used same = false≢true (sym used ∙ same_bit ∙ freed)
  where
    byte : addr / 4096 / 8 ≡ bitmap_bytes
    byte = omega arith

    same_bit : is_free p.bitmap (addr / 4096) ≡ is_free (free_frame p addr).bitmap (addr / 4096)
    same_bit = is_free_byte p.bitmap (free_frame p addr).bitmap (addr / 4096) (rw byte (sym same))

    freed : is_free (free_frame p addr).bitmap (addr / 4096) ≡ true
    freed = ground (arith, (free_frame-frees p addr v).0 (addr / 4096))

-- Below frame 32784 `pmm_free_frame` writes inside the array only.
pub free_frame_in_bitmap :
    (p : Pmm) (addr i : ℕ)
    → addr / 4096 < bitmap_bytes * 8
    → bitmap_bytes ≤ i
    → (free_frame p addr).bitmap i ≡ p.bitmap i
unfolding free_frame bitmap_clear
free_frame_in_bitmap p addr i h above = ground arith
