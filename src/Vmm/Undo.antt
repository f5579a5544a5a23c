-- ===== src/Vmm/Undo.antt =====
-- kernel/vmm.c: the loop that takes the pages of a range back.
use tuple_os.Common.{
  ℕ, zero, suc, ◌+◌, ◌*◌, ◌/◌, ◌%◌, ◌≤◌, ◌<◌, ◌≡◌, ◌≢◌, refl, sym, ap, ◌∙◌, true, arith, ◌==◌, ltb,
  leb, ◌&&◌, if◌then◌else◌, u32_mod, add32, bit_and, page_mask, page_size,
}
use mathlib.Core.Path.{subst}
use native.Mathlib.Decide.{dec_lt}
use tuple_os.Pmm
use tuple_os.Pmm.Bitmap.{is_free}
use tuple_os.Pmm.Frames.{in_table}
use tuple_os.Paging.{Machine, get_physical, unmap_page}
use tuple_os.Paging.Tables.{IsValid}
use tuple_os.Paging.Data.{IsData}
use tuple_os.Vmm.{undo_frames}
use tuple_os.Vmm.Pages.{Pages}
use tuple_os.Vmm.Unmapping.{Taken, taken, get_physical-lt}

-- Every page of the range lies in a frame of data of its own.
pub record Holds (m : Machine) (lo hi : ℕ) : Type 0 where
  pub valid : IsValid m
  pub inside :
      (w : ℕ) → lo ≤ w → w < hi → (f : ℕ) × (get_physical m w ≡ f * 4096 + w % 4096) × IsData m f
  pub own :
      (w w' : ℕ)
      → lo ≤ w
      → w < hi
      → lo ≤ w'
      → w' < hi
      → get_physical m w / 4096 ≡ get_physical m w' / 4096
      → w / 4096 ≡ w' / 4096

pub Pages-Holds : (m : Machine) (lo hi : ℕ) (m' : Machine) → Pages m lo hi m' → Holds m' lo hi
Pages-Holds m lo hi m' p = record {
  valid = p.valid;
  inside = λ w a b. let (f, at_f, _, d, _) = p.inside w a b in (f, at_f, d);
  own = p.own;
}

-- What the loop leaves: no page of the range is mapped, other addresses keep their translation, the free
-- frames stay free, and those of the range are free again.
pub record Undone (m : Machine) (lo hi : ℕ) (m' : Machine) : Type 0 where
  pub valid : IsValid m'
  pub lookup :
      (w : ℕ)
      → w < u32_mod
      → get_physical m' w ≡ (if leb lo w && ltb w hi then 0 else get_physical m w)
  pub free_kept : (g : ℕ) → is_free m.pmm.bitmap g ≡ true → is_free m'.pmm.bitmap g ≡ true
  pub freed :
      (w : ℕ)
      → lo ≤ w
      → w < hi
      → w % 4096 ≡ 0
      → 4096 ≤ get_physical m w
      → in_table (get_physical m w) ≡ true
      → is_free m'.pmm.bitmap (get_physical m w / 4096) ≡ true

-- The rest of the range, behind its first page.
Taken-Holds :
    (m : Machine) (v f hi : ℕ) (m1 : Machine)
    → v % 4096 ≡ 0
    → v < hi
    → hi ≤ u32_mod
    → Holds m v hi
    → get_physical m v ≡ f * 4096
    → Taken m v f m1
    → Holds m1 (v + 4096) hi
Taken-Holds m v f hi m1 aligned room fits h e t = record {
  valid = t.valid;
  inside = λ w a b.
      let (g, at_g, d) = h.inside w (omega arith) b in
      let other : f ≢ g = λ same. absurd (
        omega
          (arith, h.own v w (omega arith) room (omega arith) b (omega (arith, e, at_g, same)))) in
      (g, ground (arith, t.lookup w (omega arith), at_g), t.data_kept g other d);
  own = λ w w' a b c d e'.
      h.own w w' (omega arith) b (omega arith) d
        (ground (arith, t.lookup w (omega arith), t.lookup w' (omega arith), e'));
}

Taken-Undone :
    (m : Machine) (v f hi : ℕ) (m1 m' : Machine)
    → v % 4096 ≡ 0
    → v + 4096 ≤ hi
    → hi ≤ u32_mod
    → Holds m v hi
    → get_physical m v ≡ f * 4096
    → Taken m v f m1
    → Undone m1 (v + 4096) hi m'
    → Undone m v hi m'
Taken-Undone m v f hi m1 m' aligned room fits h e t u = record {
  valid = u.valid;
  lookup = λ w hw. ground (arith, u.lookup w hw, t.lookup w hw);
  free_kept = λ g x. u.free_kept g (t.free_kept g x);
  freed = λ w a b page big inside. elim (dec_lt w (v + 4096)) [
    | yes near ↦
        let here : v ≡ w = omega (arith, aligned, page) in
        let at_f : get_physical m w ≡ f * 4096 = ap (get_physical m) (sym here) ∙ e in
        let frame : get_physical m w / 4096 ≡ f = omega (arith, at_f) in
        ap (is_free m'.pmm.bitmap) frame
        ∙ u.free_kept f (t.freed (omega (arith, at_f, big)) (sym (ap in_table at_f) ∙ inside))
    | no far ↦
        let same : get_physical m1 w ≡ get_physical m w =
          ground (arith, t.lookup w (omega arith), aligned) in
        ap (λ x. is_free m'.pmm.bitmap (x / 4096)) (sym same)
        ∙ u.freed w (omega arith) b page (omega (arith, same, big)) (ap in_table same ∙ inside)
  ];
}

-- The same range, spelled in two ways.
Holds-same :
    (m : Machine) {lo hi lo' hi' : ℕ} → lo ≡ lo' → hi ≡ hi' → Holds m lo hi → Holds m lo' hi'
Holds-same m {lo} {hi} {lo'} {hi'} e f h =
    subst (λ x. Holds m x hi') e (subst (λ x. Holds m lo x) f h)

Undone-same :
    (m m' : Machine) {lo hi lo' hi' : ℕ}
    → lo ≡ lo'
    → hi ≡ hi'
    → Undone m lo hi m'
    → Undone m lo' hi' m'
Undone-same m m' {lo} {hi} {lo'} {hi'} e f u =
    subst (λ x. Undone m x hi' m') e (subst (λ x. Undone m lo x m') f u)

-- The state behind the first page of a range.
abbrev pub next_state : ℕ → Machine → Machine
next_state v m = if get_physical m v == 0 then unmap_page m v else record (unmap_page m v) {
  pmm = Pmm.free_frame (unmap_page m v).pmm (bit_and (get_physical m v) page_mask);
}

pub record Behind (n offset vaddr : ℕ) (m : Machine) : Type 0 where
  pub frame : ℕ
  pub at_frame : get_physical m (add32 vaddr offset) ≡ frame * 4096
  pub first : Holds m (add32 vaddr offset) (vaddr + offset + suc n * 4096)
  pub taken_back : Taken m (add32 vaddr offset) frame (next_state (add32 vaddr offset) m)
  pub rest :
      Holds
        (next_state (add32 vaddr offset) m)
        (vaddr + (offset + page_size))
        (vaddr + (offset + page_size) + n * 4096)
  pub kept :
      (w : ℕ)
      → w < u32_mod
      → vaddr + (offset + page_size) ≤ w
      → get_physical (next_state (add32 vaddr offset) m) w ≡ get_physical m w

pub behind :
    (n offset vaddr : ℕ) (m : Machine)
    → vaddr % 4096 ≡ 0
    → offset % 4096 ≡ 0
    → vaddr + offset + suc n * 4096 ≤ u32_mod
    → Holds m (vaddr + offset) (vaddr + offset + suc n * 4096)
    → Behind n offset vaddr m
behind n offset vaddr m a b fits h =
    let v = add32 vaddr offset in
    let hi = vaddr + offset + suc n * 4096 in
    let next = vaddr + (offset + page_size) in
    let at : v ≡ vaddr + offset = omega arith in
    let held : Holds m v hi = Holds-same m (sym at) refl h in
    let (f, at_f, d) = held.inside v (omega arith) (omega arith) in
    let e : get_physical m v ≡ f * 4096 = omega (arith, at_f) in
    let m1 : Machine = next_state v m in
    let t : Taken m v f m1 =
      taken m v f held.valid (omega arith) d e (omega (arith, get_physical-lt m v, e)) in
    let rest : Holds m1 (v + 4096) hi =
      Taken-Holds m v f hi m1 (omega arith) (omega arith) fits held e t in
    let begin : v + 4096 ≡ next = omega arith in
    let end : hi ≡ next + n * 4096 = omega arith in
    record {
      frame = f;
      at_frame = e;
      first = held;
      taken_back = t;
      rest = Holds-same m1 begin end rest;
      kept = λ w hw lo. ground (arith, t.lookup w hw, at);
    }

-- On a range of whole pages inside 4 GiB whose pages lie in frames of data of their own, the loop takes
-- them all back.
pub undo_frames-Undone :
    (n offset vaddr : ℕ) (m : Machine)
    → vaddr % 4096 ≡ 0
    → offset % 4096 ≡ 0
    → vaddr + offset + n * 4096 ≤ u32_mod
    → Holds m (vaddr + offset) (vaddr + offset + n * 4096)
    → Undone m (vaddr + offset) (vaddr + offset + n * 4096) (undo_frames n offset vaddr m)
unfolding undo_frames
undo_frames-Undone zero offset vaddr m a b fits h = record {
  valid = h.valid;
  lookup = λ w hw. ground arith;
  free_kept = λ g x. x;
  freed = λ w lo hi. absurd (omega (arith, lo, hi));
}
undo_frames-Undone (suc n) offset vaddr m a b fits h =
    let v = add32 vaddr offset in
    let hi = vaddr + offset + suc n * 4096 in
    let next = vaddr + (offset + page_size) in
    let p = behind n offset vaddr m a b fits h in
    let m1 : Machine = next_state v m in
    let m2 : Machine = undo_frames n (offset + page_size) vaddr m1 in
    let u : Undone m1 next (next + n * 4096) m2 =
      undo_frames-Undone n (offset + page_size) vaddr m1 a (omega arith) (omega arith) p.rest in
    let begin : next ≡ v + 4096 = omega arith in
    let end : next + n * 4096 ≡ hi = omega arith in
    let at : v ≡ vaddr + offset = omega arith in
    Undone-same m m2 at refl (
      Taken-Undone m v p.frame hi m1 m2 (omega arith) (omega arith) fits p.first p.at_frame
        p.taken_back (Undone-same m1 m2 begin end u))
