-- ===== src/Vmm/Page.antt =====
-- kernel/vmm.c: one page of `vmm_map_region` while frames are free.
use tuple_os.Common.{
  ℕ, ◌≤◌, ◌+◌, ◌*◌, ◌/◌, ◌%◌, ◌<◌, ◌≡◌, ◌≢◌, refl, sym, ap, ◌∙◌, true, false, some, arith, ◌==◌,
  if◌then◌else◌, Bool-cases, inl, inr, update, fill_with, fill_with_lem, u32_mod, bit_and,
  page_mask, bit_and-page_mask,
}
use mathlib.Core.Bool.{false≢true}
use mathlib.Core.Path.{subst}
use tuple_os.Pmm.{Pmm}
use tuple_os.Pmm.Bitmap.{is_free}
use tuple_os.Pmm.Frames.{Takes}
use tuple_os.Paging.{Machine, is_absent, map_page, pd_index, get_physical}
use tuple_os.Paging.Tables.{IsValid, IsNear, table_phys_lem, taken-IsValid}
use tuple_os.Paging.Mapping.{get_physical-map_page, can_map}
use tuple_os.Paging.Data.{IsData, Keeps, map_page-Keeps}
use tuple_os.Kheap.Frames.{Run, alloc-low, alloc-Run, ensure_table-Run, map_page_pmm}
use tuple_os.Vmm.{zero_page}

-- The words of a page are 0.
abbrev pub Cleared : Machine → ℕ → Type 0
Cleared m f = (k : ℕ) → k < 1024 → m.frames (f * 4096) k ≡ 0

-- The state with frame `f` zeroed.
abbrev zeroed : Machine → ℕ → Machine
zeroed m f = record m {
  frames = update m.frames (f * 4096) (fill_with 1024 0 (λ _. 0) (m.frames (f * 4096)));
}

-- A zeroed page of data changes no translation.
get_physical-zeroed :
    (m : Machine) (f w : ℕ)
    → IsValid m
    → IsData m f
    → w < u32_mod
    → get_physical (zeroed m f) w ≡ get_physical m w
unfolding get_physical
get_physical-zeroed m f w v d hw = elim (Bool-cases (is_absent (m.page_directory (pd_index w)))) [
  | inl e ↦ rw e refl
  | inr e ↦
      ground (arith, e, table_phys_lem m (pd_index w) v, d.no_table (pd_index w) (omega arith) e)
]

zeroed-IsValid : (m : Machine) (f : ℕ) → IsValid m → IsValid (zeroed m f)
zeroed-IsValid m f v = record {
  near = v.near;
  running = v.running;
  bytes = v.bytes;
  small = v.small;
  entries = v.entries;
  words = λ g k. ground (
    arith,
    v.words g k,
    v.words (f * 4096) k,
    fill_with_lem 1024 0 (λ _. 0) (m.frames (f * 4096)) k,
  );
  tables_used = v.tables_used;
  distinct = v.distinct;
}

zeroed-Cleared : (m : Machine) (f : ℕ) → Cleared (zeroed m f) f
zeroed-Cleared m f k h = ground (arith, fill_with_lem 1024 0 (λ _. 0) (m.frames (f * 4096)) k)

zero_page_lem :
    (m : Machine) (v f : ℕ)
    → get_physical m v ≡ f * 4096
    → f ≢ 0
    → f * 4096 < u32_mod
    → zero_page m v ≡ some (zeroed m f)
unfolding zero_page
zero_page_lem m v f e h small =
    let phys : bit_and (f * 4096) page_mask ≡ f * 4096 =
      omega (arith, bit_and-page_mask (f * 4096) small) in
    let there : (f * 4096 == 0) ≡ false = ground arith in rw (e, there, phys) refl

-- One page more: frame `f`, which was free, holds its data, zeroed.
pub record Paged (m : Machine) (v : ℕ) (m' : Machine) : Type 0 where
  pub frame : ℕ
  pub was_free : is_free m.pmm.bitmap frame ≡ true
  pub data_frame : IsData m' frame
  pub cleared : Cleared m' frame
  pub valid : IsValid m'
  pub lookup :
      (w : ℕ)
      → w < u32_mod
      → get_physical m' w
        ≡ (if v / 4096 == w / 4096 then frame * 4096 + w % 4096 else get_physical m w)
  pub keeps : Keeps m m'

pub get_physical_taken :
    (m : Machine) (q : Pmm) (w : ℕ) → get_physical (record m { pmm = q }) w ≡ get_physical m w
unfolding get_physical
get_physical_taken m q w = refl

can_map-Run : (m : Machine) (v lo hi : ℕ) → Run m.pmm lo hi → lo < hi → can_map m v ≡ true
can_map-Run m v lo hi r room = ground (arith, (alloc-Run m.pmm lo hi r room).0)

map_page-Run :
    (m : Machine) (v p flags lo hi : ℕ)
    → Run m.pmm lo hi
    → lo < hi
    → Run (map_page m v p flags).pmm (lo + 1) hi
map_page-Run m v p flags lo hi r room =
    subst (λ q. Run q (lo + 1) hi) (sym (map_page_pmm m v p flags))
      (ensure_table-Run m (pd_index v) flags lo hi r room)

-- The frame that was taken holds no table.
taken-IsData :
    (m : Machine) (f : ℕ) (q : Pmm) → IsValid m → Takes m.pmm f q → IsData (record m { pmm = q }) f
taken-IsData m f q v takes = record {
  in_use = ground (arith, takes.frames f);
  no_table = λ i lt p e.
      false≢true (sym (v.tables_used i lt p) ∙ ap (is_free m.pmm.bitmap) e ∙ takes.was_free);
}

taken-Keeps : (m : Machine) (f : ℕ) (q : Pmm) → Takes m.pmm f q → Keeps m (record m { pmm = q })
taken-Keeps m f q takes = record {
  used = λ g h. ground (arith, takes.frames g, h);
  kept = λ g h. (
    record { in_use = ground (arith, takes.frames g, h.in_use); no_table = h.no_table },
    λ k. refl,
  );
}

-- The state behind a page of the loop.
pub record Stepped (m : Machine) (v p flags : ℕ) (q : Pmm) (lo hi : ℕ) : Type 0 where
  pub after : Machine
  pub runs : zero_page (map_page (record m { pmm = q }) v p flags) v ≡ some after
  pub paged : Paged m v after
  pub run : Run after.pmm (lo + 1) hi

pub page_step :
    (m : Machine) (v flags : ℕ) (q : Pmm) (t lo hi : ℕ)
    → IsValid m
    → v < u32_mod
    → v % 4096 ≡ 0
    → t ≡ t / 4096 * 4096
    → Takes m.pmm (t / 4096) q
    → t ≢ 0
    → Run q lo hi
    → lo < hi
    → hi ≤ 1024
    → Stepped m v t flags q lo hi
page_step m v flags q t lo hi valid hv aligned page takes null r room reach =
    let f = t / 4096 in
    let taken : Machine = record m { pmm = q } in
    let mapped : Machine = map_page taken v t flags in
    let ok = taken-IsValid m f q valid takes in
    let small : t < u32_mod = omega (arith, takes.below_limit, valid.small) in
    let close : IsNear taken (pd_index v) = λ _. omega (arith, alloc-low q lo hi r room, reach) in
    let m1 = get_physical-map_page taken v t flags ok hv small close in
    let can = can_map-Run taken v lo hi r room in
    let keeps = map_page-Keeps taken v t flags ok hv close in
    let d = (keeps.kept f (taken-IsData m f q valid takes)).0 in
    let phys : get_physical mapped v ≡ f * 4096 = ground (arith, m1.1 v hv, can, aligned) in
    record {
      after = zeroed mapped f;
      runs = zero_page_lem mapped v f phys (omega (arith, page, null)) (omega (arith, page, small));
      paged = record {
        frame = f;
        was_free = takes.was_free;
        data_frame = record { in_use = d.in_use; no_table = d.no_table };
        cleared = zeroed-Cleared mapped f;
        valid = zeroed-IsValid mapped f m1.0;
        lookup = λ w hw.
            get_physical-zeroed mapped f w m1.0 d hw
            ∙ ground (arith, m1.1 w hw, can, get_physical_taken m q w);
        keeps = record {
          used = λ g h. keeps.used g ((taken-Keeps m f q takes).used g h);
          kept = λ g h.
              let other : f ≢ g = λ e.
                false≢true (sym h.in_use ∙ ap (is_free m.pmm.bitmap) (sym e) ∙ takes.was_free) in
              let (there, same) = keeps.kept g ((taken-Keeps m f q takes).kept g h).0 in
              (
                record { in_use = there.in_use; no_table = there.no_table },
                λ k. ground (arith, other, same k),
              );
        };
      };
      run = map_page-Run taken v t flags lo hi r room;
    }
