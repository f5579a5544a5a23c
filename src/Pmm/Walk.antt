-- ===== src/Pmm/Walk.antt =====
-- kernel/pmm.c: the walk of `pmm_init` over the memory map, and what is free after it.
use tuple_os.Common.{
  ◌%◌, ◌^◌, ℕ, zero, suc, ◌+◌, ◌-◌, ◌*◌, ◌/◌, ◌≤◌, ◌<◌, ◌≡◌, true, false, arith, ◌⊎◌, inl, inr,
  if◌then◌else◌, Bool-cases, some, add32, sub32, u32_mod, page_up, bit_and, sym, ◌∙◌, lt→ltb, ◌≢◌,
  ◌↔◌,
}
use native.Mathlib.Decide.{dec_lt}
use mathlib.Core.Bool.{false≢true}
use tuple_os.Pmm.{
  Pmm, MmapEntry, MultibootInfo, fill_used, mark_entry, walk_mmap, init, bitmap_bytes,
}
use tuple_os.Pmm.Bitmap.{is_free, IsBytes}
use tuple_os.Pmm.Scan.{full_frame}
use tuple_os.Pmm.Init.{covers, mark_entry_lem, mark_entry-IsBytes, fill_used_lem}

-- The entry after the one at `a`.
abbrev pub next_entry : (ℕ → MmapEntry) → ℕ → ℕ
next_entry entry_at a = add32 (add32 a (entry_at a).size) 4

-- The addresses at which the walk reads an entry.
pub data Visited (entry_at : ℕ → MmapEntry) (mmap_end : ℕ) : ℕ → ℕ → Type 0 where
  here : {a : ℕ} → a < mmap_end → Visited entry_at mmap_end a a
  next :
      {a b : ℕ}
      → a < mmap_end
      → Visited entry_at mmap_end (next_entry entry_at a) b
      → Visited entry_at mmap_end a b

-- The sizes in the map do not carry an entry's end past 4 GiB, so that the walk goes forward.
abbrev pub IsForward : (ℕ → MmapEntry) → ℕ → Type 0
IsForward entry_at mmap_end = (a : ℕ) → a < mmap_end → a + (entry_at a).size + 4 < u32_mod

module _ (entry_at : ℕ → MmapEntry) (mmap_end kernel_end : ℕ) where
  -- What the walk from `a` has done when it stops.
  pub record Walked (a : ℕ) (p q : Pmm) : Type 0 where
    pub kept : (g : ℕ) → is_free p.bitmap g ≡ true → is_free q.bitmap g ≡ true
    pub freed :
        (b g : ℕ)
        → Visited entry_at mmap_end a b
        → covers kernel_end (entry_at b) g ≡ true
        → is_free q.bitmap g ≡ true
    pub only :
        (g : ℕ)
        → is_free q.bitmap g ≡ true
        → (is_free p.bitmap g ≡ true)
          ⊎ ((b : ℕ) × Visited entry_at mmap_end a b × (covers kernel_end (entry_at b) g ≡ true))
    pub bytes : IsBytes q.bitmap

  not_visited : {a b : ℕ} → mmap_end ≤ a → ¬ Visited entry_at mmap_end a b
  not_visited h (here lt) = omega arith
  not_visited h (next lt v) = omega arith

  stopped : (a : ℕ) (p : Pmm) → IsBytes p.bitmap → mmap_end ≤ a → Walked a p p
  stopped a p v h = record {
    kept = λ g e. e;
    freed = λ b g s c. absurd (not_visited h s);
    only = λ g e. inl e;
    bytes = v;
  }

  one_more :
      (a : ℕ) (p q : Pmm)
      → IsBytes p.bitmap
      → a < mmap_end
      → Walked (next_entry entry_at a) (mark_entry (entry_at a) kernel_end p) q
      → Walked a p q
  one_more a p q v lt w = record {
    kept = λ g e. w.kept g (ground (arith, marked g));
    freed = freed;
    only = only;
    bytes = w.bytes;
  }
    where
      marked :
          (g : ℕ)
          → is_free (mark_entry (entry_at a) kernel_end p).bitmap g
            ≡ (if covers kernel_end (entry_at a) g then true else is_free p.bitmap g)
      marked g = mark_entry_lem (entry_at a) kernel_end p g v

      covered :
          (g : ℕ)
          → covers kernel_end (entry_at a) g ≡ true
          → is_free (mark_entry (entry_at a) kernel_end p).bitmap g ≡ true
      covered g c = rw c at (marked g)

      freed :
          (b g : ℕ)
          → Visited entry_at mmap_end a b
          → covers kernel_end (entry_at b) g ≡ true
          → is_free q.bitmap g ≡ true
      freed b g (here _) c = w.kept g (covered g c)
      freed b g (next _ s) c = w.freed b g s c

      before :
          (g : ℕ)
          → is_free (mark_entry (entry_at a) kernel_end p).bitmap g ≡ true
          → (is_free p.bitmap g ≡ true) ⊎ (covers kernel_end (entry_at a) g ≡ true)
      before g e = elim (Bool-cases (covers kernel_end (entry_at a) g)) [
        | inl c ↦ inr c
        | inr c ↦ inl (sym (rw c at (marked g)) ∙ e)
      ]

      only :
          (g : ℕ)
          → is_free q.bitmap g ≡ true
          → (is_free p.bitmap g ≡ true)
            ⊎ ((b : ℕ) × Visited entry_at mmap_end a b × (covers kernel_end (entry_at b) g ≡ true))
      only g e = elim (w.only g e) [
        | inl m ↦ elim (before g m) [ inl old ↦ inl old | inr c ↦ inr (a, here lt, c) ]
        | inr (b, s, c) ↦ inr (b, next lt s, c)
      ]

  -- Fuel above the bytes left is enough, and the walk does what `Walked` says.
  walk_mmap-Walked :
      (fuel a : ℕ) (p : Pmm)
      → IsBytes p.bitmap
      → IsForward entry_at mmap_end
      → mmap_end - a < fuel
      → (q : Pmm) × (walk_mmap fuel entry_at a mmap_end kernel_end p ≡ some q) × Walked a p q
  unfolding walk_mmap
  walk_mmap-Walked zero a p v fwd h = absurd (omega arith)
  walk_mmap-Walked (suc fuel) a p v fwd h = elim (dec_lt a mmap_end) [
    | yes lt ↦
        let (q, e, w) =
          walk_mmap-Walked fuel (next_entry entry_at a) (mark_entry (entry_at a) kernel_end p)
            (mark_entry-IsBytes (entry_at a) kernel_end p v) fwd (omega (arith, fwd a lt)) in
        (q, rw (lt→ltb a mmap_end lt) e, one_more a p q v lt w)
    | no ge ↦ (p, ground arith, stopped a p v (omega arith))
  ]

-- The region of an entry in bytes.
abbrev pub base_of : MmapEntry → ℕ
base_of e = e.base_addr % 2 ^ 32

abbrev pub length_of : MmapEntry → ℕ
length_of e = e.length % 2 ^ 32

-- Every byte of the frame lies in the region of the entry, which is available, and behind the first megabyte
-- and the kernel.
pub record Usable (kernel_end : ℕ) (e : MmapEntry) (g : ℕ) : Type 0 where
  pub available : e.type ≡ 1
  pub first_byte : base_of e ≤ g * 4096
  pub last_byte : g * 4096 + 4095 < base_of e + length_of e
  pub behind_low : 0x10_0000 ≤ g * 4096
  pub behind_kernel : kernel_end ≤ g * 4096

covers_iff :
    (kernel_end : ℕ) (e : MmapEntry) (g : ℕ)
    → (e.type ≡ 1 → base_of e + length_of e < u32_mod)
    → (e.type ≡ 1 → base_of e + 4096 ≤ u32_mod)
    → g < bitmap_bytes * 8
    → (covers kernel_end e g ≡ true) ↔ Usable kernel_end e g
covers_iff kernel_end e g fits begins h = (
  λ c.
      let type : e.type ≡ 1 = ground (arith, c) in
      let end = fits type in
      let start = begins type in
      record {
        available = type;
        first_byte = ground (arith, c, start);
        last_byte = ground (arith, c, end);
        behind_low = ground (arith, c);
        behind_kernel = ground (arith, c);
      },
  λ u.
      let end = fits u.available in
      let start = begins u.available in
      ground (
        arith, u.available, u.first_byte, u.last_byte, u.behind_low, u.behind_kernel, end, start, h,
      ),
)

-- The map is available, its walk goes forward, and no available entry, as the casts to 32 bits leave it, ends at 4 GiB or
-- begins in the last page before it.
pub record IsMapped (entry_at : ℕ → MmapEntry) (mbi : MultibootInfo) : Type 0 where
  pub available : bit_and mbi.flags 64 ≢ 0
  pub forward : IsForward entry_at (add32 mbi.mmap_addr mbi.mmap_length)
  pub fits :
      (a : ℕ) → (entry_at a).type ≡ 1 → base_of (entry_at a) + length_of (entry_at a) < u32_mod
  pub begins : (a : ℕ) → (entry_at a).type ≡ 1 → base_of (entry_at a) + 4096 ≤ u32_mod

-- The end of the kernel as `pmm_init` computes it.
abbrev pub kernel_end_of : ℕ → ℕ
kernel_end_of kernel_symbol = page_up (sub32 kernel_symbol 0xc000_0000)

abbrev pub Covered : (ℕ → MmapEntry) → MultibootInfo → ℕ → ℕ → Type 0
Covered entry_at mbi kernel_symbol g =
    (b : ℕ) × Visited entry_at (add32 mbi.mmap_addr mbi.mmap_length) mbi.mmap_addr b
    × Usable (kernel_end_of kernel_symbol) (entry_at b) g

filled : (m : ℕ → ℕ) (g : ℕ) → g < bitmap_bytes * 8 → is_free (fill_used m) g ≡ false
filled m g h = full_frame (fill_used m) g (ground (arith, fill_used_lem m (g / 8)))

fill_used-IsBytes : (m : ℕ → ℕ) → IsBytes m → IsBytes (fill_used m)
fill_used-IsBytes m v i = ground (arith, v i, fill_used_lem m i)

-- Whatever the bitmap held, `pmm_init` ends, and then a frame of the bitmap is free exactly when some
-- entry of the memory map covers it: the entry is available, every byte of the frame lies in its region
-- (as the casts to 32 bits leave it; an available one ends below 4 GiB), and the frame is neither in the first megabyte
-- nor in the kernel.
pub init_frees_exactly :
    (entry_at : ℕ → MmapEntry) (mbi : MultibootInfo) (kernel_symbol : ℕ) (p : Pmm)
    → IsBytes p.bitmap
    → IsMapped entry_at mbi
    → (q : Pmm) × (init entry_at mbi kernel_symbol p ≡ some q)
      × IsBytes q.bitmap
      × ((g : ℕ)
          → g < bitmap_bytes * 8
          → (is_free q.bitmap g ≡ true) ↔ Covered entry_at mbi kernel_symbol g)
unfolding init
init_frees_exactly entry_at mbi kernel_symbol p v mapped =
    let stop : ℕ = add32 mbi.mmap_addr mbi.mmap_length in
    let cleared : Pmm = record p { bitmap = fill_used p.bitmap } in
    let (q, e, w) =
      walk_mmap-Walked entry_at stop (kernel_end_of kernel_symbol) (mbi.mmap_length + 1)
        mbi.mmap_addr cleared (fill_used-IsBytes p.bitmap v) mapped.forward (omega arith) in
    (
      q,
      ground (arith, e, mapped.available),
      w.bytes,
      λ g h. (
        λ free. elim (w.only g free) [
          | inl old ↦ absurd (false≢true (sym (filled p.bitmap g h) ∙ old))
          | inr (b, s, c) ↦ (
            b,
            s,
            (covers_iff (kernel_end_of kernel_symbol) (entry_at b) g (mapped.fits b)
                  (mapped.begins b) h).0
                c,
          )
        ],
        λ c. w.freed c.0 g c.1 (
            (covers_iff (kernel_end_of kernel_symbol) (entry_at c.0) g (mapped.fits c.0)
                (mapped.begins c.0) h).1
              c.2),
      ),
    )

-- With no memory map every frame of the bitmap is used.
pub init_without_map :
    (entry_at : ℕ → MmapEntry) (mbi : MultibootInfo) (kernel_symbol : ℕ) (p : Pmm)
    → bit_and mbi.flags 64 ≡ 0
    → (q : Pmm) × (init entry_at mbi kernel_symbol p ≡ some q)
      × ((g : ℕ) → g < bitmap_bytes * 8 → is_free q.bitmap g ≡ false)
unfolding init
init_without_map entry_at mbi kernel_symbol p h =
    (record p { bitmap = fill_used p.bitmap }, ground arith, filled p.bitmap)
