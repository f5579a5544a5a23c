-- ===== src/Pmm/Init.antt =====
-- kernel/pmm.c: `pmm_init` frees exactly the usable frames of the memory map.
use tuple_os.Common.{
  ℕ, zero, suc, ◌+◌, ◌-◌, ◌*◌, ◌%◌, ◌≤◌, ◌<◌, ◌≡◌, Bool, true, arith, ◌==◌, inl, inr, if◌then◌else◌,
  Bool-cases, leb, ltb, u32_mod, ◌&&◌, ◌||◌, not, ap, ◌∙◌, fill_with_lem,
}
use tuple_os.Pmm.{
  Pmm, MmapEntry, fill_used, mark_frame, mark_frames, mark_entry, start_frame, end_frame, lower,
  max_frames, bitmap_bytes,
}
use tuple_os.Pmm.Bitmap.{is_free, IsBytes, is_free-bitmap_clear, bitmap_clear-IsBytes}

pub fill_used_lem : (m : ℕ → ℕ) (j : ℕ) → fill_used m j ≡ (if ltb j bitmap_bytes then 0xff else m j)
unfolding fill_used
fill_used_lem m j = ground (arith, fill_with_lem bitmap_bytes 0 (λ _. 0xff) m j)

-- The first megabyte and the kernel are never given out.
abbrev pub is_reserved : ℕ → ℕ → Bool
is_reserved kernel_end g = ltb (g * 4096) 0x10_0000 || ltb (g * 4096) kernel_end

-- The frame lies whole in the entry's region, which is available and not reserved.
abbrev pub covers : ℕ → MmapEntry → ℕ → Bool
covers kernel_end e g =
    (e.type == 1)
    && (leb (start_frame e) g
        && (ltb g (end_frame e) && (ltb g max_frames && not (is_reserved kernel_end g))))

mark_frame_lem :
    (f kernel_end : ℕ) (p : Pmm) (g : ℕ)
    → IsBytes p.bitmap
    → f < 0x10_0000
    → is_free (mark_frame f kernel_end p).bitmap g
      ≡ (if (f == g) && not (is_reserved kernel_end g) then true else is_free p.bitmap g)
unfolding mark_frame
mark_frame_lem f kernel_end p g v h =
    let same : f * 4096 % u32_mod ≡ f * 4096 = omega arith in
    ground (arith, is_free-bitmap_clear p.bitmap f g v)

mark_frame-IsBytes :
    (f kernel_end : ℕ) (p : Pmm) → IsBytes p.bitmap → IsBytes (mark_frame f kernel_end p).bitmap
unfolding mark_frame
mark_frame-IsBytes f kernel_end p v i = ground (arith, v i, bitmap_clear-IsBytes p.bitmap f v i)

mark_frames-IsBytes :
    (n f kernel_end : ℕ) (p : Pmm)
    → IsBytes p.bitmap
    → IsBytes (mark_frames n f kernel_end p).bitmap
unfolding mark_frames
mark_frames-IsBytes zero f kernel_end p v = v
mark_frames-IsBytes (suc n) f kernel_end p v =
    mark_frames-IsBytes n (f + 1) kernel_end _ (mark_frame-IsBytes f kernel_end p v)

abbrev in_run : ℕ → ℕ → ℕ → ℕ → Bool
in_run f n kernel_end g = leb f g && (ltb g (f + n) && not (is_reserved kernel_end g))

in_run-suc :
    (f n kernel_end g : ℕ) (b : Bool)
    → (if in_run (f + 1) n kernel_end g
        then true
        else (if (f == g) && not (is_reserved kernel_end g) then true else b))
      ≡ (if in_run f (suc n) kernel_end g then true else b)
in_run-suc f n kernel_end g b = ground arith

mark_frames_lem :
    (n f kernel_end : ℕ) (p : Pmm) (g : ℕ)
    → IsBytes p.bitmap
    → f + n ≤ 0x10_0000
    → is_free (mark_frames n f kernel_end p).bitmap g
      ≡ (if in_run f n kernel_end g then true else is_free p.bitmap g)
unfolding mark_frames
mark_frames_lem zero f kernel_end p g v h = ground arith
mark_frames_lem (suc n) f kernel_end p g v h =
    mark_frames_lem n (f + 1) kernel_end (mark_frame f kernel_end p) g
      (mark_frame-IsBytes f kernel_end p v) (omega arith)
    ∙ ap (λ b. if in_run (f + 1) n kernel_end g then true else b)
        (mark_frame_lem f kernel_end p g v (omega arith))
    ∙ in_run-suc f n kernel_end g (is_free p.bitmap g)

-- One entry of the map adds the frames that it covers.
pub mark_entry_lem :
    (e : MmapEntry) (kernel_end : ℕ) (p : Pmm) (g : ℕ)
    → IsBytes p.bitmap
    → is_free (mark_entry e kernel_end p).bitmap g
      ≡ (if covers kernel_end e g then true else is_free p.bitmap g)
unfolding mark_entry
mark_entry_lem e kernel_end p g v = elim (Bool-cases (e.type == 1)) [
  | inl available ↦ rw available (marked (start_frame e) (end_frame e) (omega arith))
  | inr other ↦ rw other
]
  where
    marked :
        (lo hi : ℕ)
        → lo ≤ 0x10_0000
        → is_free (mark_frames (lower hi max_frames - lo) lo kernel_end p).bitmap g ≡ (
            if leb lo g && (ltb g hi && (ltb g max_frames && not (is_reserved kernel_end g)))
            then true
            else is_free p.bitmap g)
    marked lo hi h =
        ground
          (arith, mark_frames_lem (lower hi max_frames - lo) lo kernel_end p g v (ground arith))

pub mark_entry-IsBytes :
    (e : MmapEntry) (kernel_end : ℕ) (p : Pmm)
    → IsBytes p.bitmap
    → IsBytes (mark_entry e kernel_end p).bitmap
unfolding mark_entry
mark_entry-IsBytes e kernel_end p v i = ground (
  arith,
  v i,
  mark_frames-IsBytes (lower (end_frame e) max_frames - start_frame e) (start_frame e) kernel_end p
      v i,
)
