-- ===== src/Vmm/Unmapping.antt =====
-- kernel/vmm.c: one round of the loop that takes the pages of a range back.
use tuple_os.Common.{
  ℕ, ◌*◌, ◌/◌, ◌<◌, ◌≡◌, ◌≢◌, refl, sym, ap, ◌∙◌, true, false, arith, ◌==◌, if◌then◌else◌,
  Bool-cases, inl, inr, u32_mod, bit_and, page_mask, bit_and-page_mask,
}
use mathlib.Core.Path.{subst}
use tuple_os.Pmm
use tuple_os.Pmm.Bitmap.{is_free}
use tuple_os.Pmm.Frames.{free_frame-frees, in_table}
use tuple_os.Paging.{Machine, is_absent, pd_index, get_physical, unmap_page, write_entry}
use tuple_os.Paging.Tables.{IsValid, table_frame}
use tuple_os.Paging.Mapping.{get_physical-unmap_page}
use tuple_os.Paging.Data.{IsData, NoTable}
use tuple_os.Vmm.Page.{get_physical_taken}

-- `paging_unmap_page` takes and gives no frame, and keeps the directory.
unmap_page-same :
    (m : Machine) (v : ℕ)
    → ((unmap_page m v).pmm ≡ m.pmm) × ((unmap_page m v).page_directory ≡ m.page_directory)
unfolding unmap_page write_entry
unmap_page-same m v = elim (Bool-cases (is_absent (m.page_directory (pd_index v)))) [
  | inl e ↦ rw e (refl, refl)
  | inr e ↦ rw e (refl, refl)
]

-- A frame of data that is given back leaves the tables valid.
freed-IsValid :
    (m : Machine) (f : ℕ)
    → IsValid m
    → NoTable m f
    → IsValid (record m { pmm = Pmm.free_frame m.pmm (f * 4096) })
freed-IsValid m f v apart =
    let (frames, _, total, bytes) = free_frame-frees m.pmm (f * 4096) v.bytes in
    record {
      bytes = bytes;
      small = omega (arith, total, v.small);
      entries = v.entries;
      words = v.words;
      tables_used =
          λ i lt p. ground (arith, frames (table_frame m i), v.tables_used i lt p, apart i lt p);
      distinct = v.distinct;
      near = v.near;
      running = v.running;
    }

-- One page less, whose frame was `f`.
pub record Taken (m : Machine) (v f : ℕ) (m' : Machine) : Type 0 where
  pub valid : IsValid m'
  pub lookup :
      (w : ℕ)
      → w < u32_mod
      → get_physical m' w ≡ (if v / 4096 == w / 4096 then 0 else get_physical m w)
  pub data_kept : (g : ℕ) → f ≢ g → IsData m g → IsData m' g
  pub free_kept : (g : ℕ) → is_free m.pmm.bitmap g ≡ true → is_free m'.pmm.bitmap g ≡ true
  pub freed : f ≢ 0 → in_table (f * 4096) ≡ true → is_free m'.pmm.bitmap f ≡ true

-- The frame of a page in frame 0 is taken for NULL.
unmapped-Taken :
    (m : Machine) (v f : ℕ) → IsValid m → v < u32_mod → f ≡ 0 → Taken m v f (unmap_page m v)
unmapped-Taken m v f valid hv e =
    let (ok, lookup) = get_physical-unmap_page m v valid hv in
    let (pmm, dir) = unmap_page-same m v in
    record {
      valid = ok;
      lookup = lookup;
      data_kept = λ g other d. record {
        in_use = ap (λ q. is_free q.bitmap g) pmm ∙ d.in_use;
        no_table =
            subst (λ (x : ℕ → ℕ). (i : ℕ) → i < 1024 → is_absent (x i) ≡ false → x i / 4096 ≢ g)
              (sym dir) d.no_table;
      };
      free_kept = λ g h. ap (λ q. is_free q.bitmap g) pmm ∙ h;
      freed = λ h. absurd (h e);
    }

freed-Taken :
    (m : Machine) (v f : ℕ)
    → IsValid m
    → v < u32_mod
    → IsData m f
    → Taken m v f (record (unmap_page m v) { pmm = Pmm.free_frame (unmap_page m v).pmm (f * 4096) })
freed-Taken m v f valid hv d =
    let (ok, lookup) = get_physical-unmap_page m v valid hv in
    let (pmm, dir) = unmap_page-same m v in
    let (frames, _, total, bytes) = free_frame-frees (unmap_page m v).pmm (f * 4096) ok.bytes in
    let apart : (g : ℕ) → NoTable m g → NoTable (unmap_page m v) g = λ g.
      subst (λ (x : ℕ → ℕ). (i : ℕ) → i < 1024 → is_absent (x i) ≡ false → x i / 4096 ≢ g)
        (sym dir) in
    let same : (g : ℕ) → is_free (unmap_page m v).pmm.bitmap g ≡ is_free m.pmm.bitmap g =
      λ g. ap (λ q. is_free q.bitmap g) pmm in
    record {
      valid = freed-IsValid (unmap_page m v) f ok (apart f d.no_table);
      lookup = λ w hw. get_physical_taken (unmap_page m v) _ w ∙ lookup w hw;
      data_kept = λ g other h. record {
        in_use = ground (arith, frames g, same g, h.in_use, other);
        no_table = apart g h.no_table;
      };
      free_kept = λ g h. ground (arith, frames g, same g, h);
      freed = λ some_frame inside. ground (arith, frames f, inside);
    }

pub get_physical-lt : (m : Machine) (v : ℕ) → get_physical m v < u32_mod
unfolding get_physical
get_physical-lt m v = ground arith

-- A round of the loop on a page of frame `f`.
pub taken :
    (m : Machine) (v f : ℕ)
    → IsValid m
    → v < u32_mod
    → IsData m f
    → get_physical m v ≡ f * 4096
    → f * 4096 < u32_mod
    → Taken m v f (
        if get_physical m v == 0 then unmap_page m v else record (unmap_page m v) {
          pmm = Pmm.free_frame (unmap_page m v).pmm (bit_and (get_physical m v) page_mask);
        })
taken m v f valid hv d e small =
    let phys : bit_and (f * 4096) page_mask ≡ f * 4096 =
      omega (arith, bit_and-page_mask (f * 4096) small) in
    elim (Bool-cases (f * 4096 == 0)) [
      | inl null ↦ rw (e, null) (unmapped-Taken m v f valid hv (ground (arith, null)))
      | inr frame ↦ rw (e, frame, phys) (freed-Taken m v f valid hv d)
    ]
