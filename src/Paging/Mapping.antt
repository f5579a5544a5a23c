-- ===== src/Paging/Mapping.antt =====
-- kernel/paging.c: what `paging_map_page` and `paging_unmap_page` do to `paging_get_physical`.
use tuple_os.Common.{
  ℕ, ◌+◌, ◌*◌, ◌/◌, ◌%◌, ◌<◌, ◌≡◌, refl, Bool, true, false, arith, not, ◌&&◌, u32_mod, page_mask,
  bit_and, bit_and-page_mask, bit_and-page_offset, bit_and-table_index, ◌==◌, if◌then◌else◌,
  Bool-cases, inl, inr, add32,
}
use tuple_os.Pmm
use tuple_os.Paging.{
  Machine, is_absent, or_null, pd_index, pt_index, page_entries, page_entry, add_table,
  ensure_table, write_entry, map_page, unmap_page, get_physical,
}
use tuple_os.Paging.Entries.{present_bit, page_entry_lem}
use tuple_os.Paging.Tables.{
  IsValid, IsNear, Ensured, cell, ensure_table-Ensured, cell-write_entry, write_entry-IsValid,
}

-- The address that an entry gives for the page of `w`.
abbrev pub target : ℕ → ℕ → ℕ
target entry w = if is_absent entry then 0 else add32 (bit_and entry page_mask) (bit_and w 0xfff)

pub get_physical_lem :
    (s : Machine) (w : ℕ) → get_physical s w ≡ target (cell s (pd_index w) (pt_index w)) w
unfolding get_physical
get_physical_lem s w = ground arith

pt_index-lt : (w : ℕ) → pt_index w < page_entries
pt_index-lt w = omega (arith, bit_and-table_index (w / 4096))

same_page :
    (v w : ℕ) → ((pd_index v == pd_index w) && (pt_index v == pt_index w)) ≡ (v / 4096 == w / 4096)
same_page v w = ground (arith, bit_and-table_index (v / 4096), bit_and-table_index (w / 4096))

-- There is a page table for the address, or a frame to make one.
abbrev pub can_map : Machine → ℕ → Bool
can_map s v =
    if is_absent (s.page_directory (pd_index v))
    then not (or_null (Pmm.alloc_frame s.pmm).0 == 0)
    else true

found_lem : (s : Machine) (v flags : ℕ) → (ensure_table s (pd_index v) flags).1 ≡ can_map s v
unfolding ensure_table add_table
found_lem s v flags = ground arith

-- The state of the words of two pages after a write.
cell_page :
    (s : Machine) (v w entry : ℕ)
    → IsValid s
    → v < u32_mod
    → w < u32_mod
    → is_absent (s.page_directory (pd_index v)) ≡ false
    → cell (write_entry s (pd_index v) (pt_index v) entry) (pd_index w) (pt_index w)
      ≡ (if v / 4096 == w / 4096 then entry else cell s (pd_index w) (pt_index w))
cell_page s v w entry valid hv hw there = ground (
  arith,
  same_page v w,
  cell-write_entry s (pd_index v) (pt_index v) entry (pd_index w) (pt_index w) valid (omega arith)
      (omega arith) there,
)

mapped_target :
    (p flags w : ℕ) → p < u32_mod → target (page_entry p flags) w ≡ p / 4096 * 4096 + w % 4096
mapped_target p flags w h =
    let e = page_entry_lem p flags h in
    ground (
      arith,
      present_bit (page_entry p flags),
      bit_and-page_mask (page_entry p flags) e.0,
      e.1,
      e.2,
      bit_and-page_offset w,
    )

-- With the page tables, and the frame for a new one if it is needed, in the first 4 MB, `paging_map_page`
-- does not fault; it maps the page of `v` to the frame of `p`, if there is a page table or a frame for
-- one, and otherwise maps nothing; every other page keeps its translation, and the tables stay valid.
pub get_physical-map_page :
    (s : Machine) (v p flags : ℕ)
    → IsValid s
    → v < u32_mod
    → p < u32_mod
    → IsNear s (pd_index v)
    → IsValid (map_page s v p flags)
      × ((w : ℕ)
          → w < u32_mod
          → get_physical (map_page s v p flags) w ≡ (
              if can_map s v && (v / 4096 == w / 4096)
              then p / 4096 * 4096 + w % 4096
              else get_physical s w))
unfolding map_page
get_physical-map_page s v p flags valid hv hp close =
    mapped (ensure_table s (pd_index v) flags).0 (ensure_table s (pd_index v) flags).1
      (ensure_table-Ensured s (pd_index v) flags valid (omega arith) close) (found_lem s v flags)
  where
    mapped :
        (s' : Machine) (found : Bool)
        → Ensured s (pd_index v) s' found
        → found ≡ can_map s v
        → let t : Machine =
            if found then write_entry s' (pd_index v) (pt_index v) (page_entry p flags) else s' in
          IsValid t
          × ((w : ℕ)
              → w < u32_mod
              → get_physical t w ≡ (
                  if can_map s v && (v / 4096 == w / 4096)
                  then p / 4096 * 4096 + w % 4096
                  else get_physical s w))
    mapped s' true e f = (
      write_entry-IsValid s' (pd_index v) (pt_index v) (page_entry p flags) e.valid (omega arith)
          (e.present refl) (page_entry_lem p flags hp).0,
      λ w hw. ground (
        arith,
        f,
        get_physical_lem (write_entry s' (pd_index v) (pt_index v) (page_entry p flags)) w,
        get_physical_lem s w,
        cell_page s' v w (page_entry p flags) e.valid hv hw (e.present refl),
        e.cells (pd_index w) (pt_index w) (omega arith) (pt_index-lt w),
        mapped_target p flags w hp,
      ),
    )
    mapped s' false e f = (
      e.valid,
      λ w hw. ground (
        arith,
        f,
        get_physical_lem s' w,
        get_physical_lem s w,
        e.cells (pd_index w) (pt_index w) (omega arith) (pt_index-lt w),
      ),
    )

-- With the page tables in the first 4 MB, `paging_unmap_page` does not fault; it removes the translation of its page and keeps that of every other page.
pub get_physical-unmap_page :
    (s : Machine) (v : ℕ)
    → IsValid s
    → v < u32_mod
    → IsValid (unmap_page s v)
      × ((w : ℕ)
          → w < u32_mod
          → get_physical (unmap_page s v) w
            ≡ (if v / 4096 == w / 4096 then 0 else get_physical s w))
unfolding unmap_page
get_physical-unmap_page s v valid hv =
    elim (Bool-cases (is_absent (s.page_directory (pd_index v)))) [
      | inl absent ↦ rw absent (valid, λ w hw. ground (arith, same_page v w, get_physical_lem s w))
      | inr there ↦ rw there (
        write_entry-IsValid s (pd_index v) (pt_index v) 0 valid (omega arith) there (omega arith),
        λ w hw. ground (
          arith,
          get_physical_lem (write_entry s (pd_index v) (pt_index v) 0) w,
          get_physical_lem s w,
          cell_page s v w 0 valid hv hw there,
        ),
      )
    ]
