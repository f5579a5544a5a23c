-- ===== src/Pmm/Scan.antt =====
-- kernel/pmm.c: `bitmap_first_free` finds the lowest free frame that it looks at.
use tuple_os.Common.{
  ℕ, zero, suc, ◌+◌, ◌*◌, ◌/◌, ◌%◌, ◌≤◌, ◌<◌, ◌≡◌, refl, Bool, true, false, arith, ◌==◌, inl, inr,
  if◌then◌else◌, holds_below, holds_below_lem, Bool-cases, Option, none, some, First, First-here,
  First-skip,
}
use tuple_os.Pmm.{Pmm, byte_test, first_clear_bit, scan_bytes, bitmap_first_free}
use tuple_os.Pmm.Bitmap.{is_free}

abbrev is_clear : ℕ → ℕ → Bool
is_clear b k = byte_test b k == 0

first_clear_bit-First :
    (n j hi b : ℕ) → j + n ≡ hi → First (is_clear b) j hi (first_clear_bit n j b)
unfolding first_clear_bit
first_clear_bit-First zero j hi b e = λ k a c. absurd (omega arith)
first_clear_bit-First (suc n) j hi b e = elim (Bool-cases (is_clear b j)) [
  | inl clear ↦ rw clear (First-here (is_clear b) j hi (omega arith) clear)
  | inr used ↦ rw used (
      First-skip (is_clear b) j (j + 1) hi _ (omega arith)
        (λ k a c. let e : k ≡ j = omega arith in rw e used)
        (first_clear_bit-First n (j + 1) hi b (omega arith)))
]

used_row : ℕ → Bool
used_row k = if is_clear 0xff k then false else true

used_table : holds_below 8 used_row ≡ true
unfolding holds_below used_row
used_table = refl

full_byte : (k : ℕ) → k < 8 → is_clear 0xff k ≡ false
unfolding used_row
full_byte k h = ground (arith, holds_below_lem 8 used_row k used_table h)

is_free-byte : (m : ℕ → ℕ) (f : ℕ) → is_free m f ≡ is_clear (m (f / 8)) (f % 8)
unfolding is_free
is_free-byte m f = refl

is_free_at : (m : ℕ → ℕ) (i k : ℕ) → k < 8 → is_free m (i * 8 + k) ≡ is_clear (m i) k
is_free_at m i k h = ground (arith, is_free-byte m (i * 8 + k))

-- The search of one byte, as a search of its eight frames.
First-byte :
    (m : ℕ → ℕ) (i : ℕ) (o : Option ℕ)
    → First (is_clear (m i)) 0 8 o
    → First (is_free m) (i * 8) (i * 8 + 8) (elim o [ none ↦ none | some j ↦ some (i * 8 + j) ])
First-byte m i none h = λ f a b. ground (arith, is_free-byte m f, h (f % 8))
First-byte m i (some j) h = (
  omega arith,
  omega arith,
  ground (arith, is_free_at m i j),
  λ f a b. ground (arith, is_free-byte m f, h.3 (f % 8)),
)

First-extend :
    (p : ℕ → Bool) (lo mid hi : ℕ) (r : ℕ)
    → mid ≤ hi
    → First p lo mid (some r)
    → First p lo hi (some r)
First-extend p lo mid hi r h f = (f.0, omega arith, f.2, f.3)

scan_bytes-First :
    (n i hi : ℕ) (m : ℕ → ℕ) → i + n ≡ hi → First (is_free m) (i * 8) (hi * 8) (scan_bytes n i m)
unfolding scan_bytes
scan_bytes-First zero i hi m e = λ k a c. absurd (omega arith)
scan_bytes-First (suc n) i hi m e = elim (Bool-cases (m i == 0xff)) [
  | inl full ↦ rw full (
      First-skip (is_free m) (i * 8) ((i + 1) * 8) (hi * 8) _ (omega arith)
        (λ f a b. ground (arith, is_free-byte m f, full_byte (f % 8)))
        (scan_bytes-First n (i + 1) hi m (omega arith)))
  | inr open' ↦ rw open' (
      search_byte (first_clear_bit 8 0 (m i)) (first_clear_bit-First 8 0 8 (m i) (omega arith))
        (scan_bytes-First n (i + 1) hi m (omega arith)))
]
  where
    search_byte :
        (o : Option ℕ)
        → First (is_clear (m i)) 0 8 o
        → First (is_free m) ((i + 1) * 8) (hi * 8) (scan_bytes n (i + 1) m)
        → First
            (is_free m)
            (i * 8)
            (hi * 8)
            (elim o [ some j ↦ some (i * 8 + j) | none ↦ scan_bytes n (i + 1) m ])
    search_byte none h rest =
        First-skip (is_free m) (i * 8) ((i + 1) * 8) (hi * 8) _ (omega arith)
          (λ f a b. First-byte m i none h f a (omega arith)) rest
    search_byte (some j) h rest =
        First-extend (is_free m) (i * 8) (i * 8 + 8) (hi * 8) (i * 8 + j) (omega arith)
          (First-byte m i (some j) h)

-- The frames that `bitmap_first_free` can return stop at this one.
abbrev pub scan_limit : Pmm → ℕ
scan_limit p = p.total_frames / 8 * 8

-- `bitmap_first_free` returns the lowest free frame below `total_frames / 8 * 8`, and -1 exactly
-- when there is none below it.
pub bitmap_first_free-First :
    (p : Pmm) → First (is_free p.bitmap) 0 (scan_limit p) (bitmap_first_free p)
unfolding bitmap_first_free
bitmap_first_free-First p =
    scan_bytes-First (p.total_frames / 8) 0 (p.total_frames / 8) p.bitmap (omega arith)

-- A frame whose byte is 0xFF is used.
pub full_frame : (m : ℕ → ℕ) (f : ℕ) → m (f / 8) ≡ 0xff → is_free m f ≡ false
full_frame m f h = ground (arith, is_free-byte m f, full_byte (f % 8))
