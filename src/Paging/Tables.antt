-- ===== src/Paging/Tables.antt =====
-- kernel/paging.c: the page tables stay apart from one another and from the free frames.
use tuple_os.Common.{
  ℕ, ◌||◌, not, ◌*◌, ◌/◌, ◌%◌, ◌<◌, ◌≡◌, ◌≢◌, refl, sym, ◌∙◌, ap, Bool, true, false, Option, none,
  some, arith, u32_mod, page_mask, bit_and, bit_and-page_mask, ◌==◌, if◌then◌else◌, fill_with_lem,
  update, fill_with, Bool-cases, inl, inr,
}
use mathlib.Core.Bool.{false≢true}
use tuple_os.Pmm
use tuple_os.Pmm.{Pmm}
use tuple_os.Pmm.Bitmap.{is_free, IsBytes}
use tuple_os.Pmm.Frames.{Takes, Allocates, IsSmall, alloc_frame-Allocates}
use tuple_os.Paging.{
  Machine, is_absent, reaches, table_phys, or_null, add_table, ensure_table, write_entry,
  page_entries,
}
use tuple_os.Paging.Entries.{present_bit, table_entry, table_entry_lem}

-- The frame of the table behind directory entry `i`.
abbrev pub table_frame : Machine → ℕ → ℕ
table_frame s i = s.page_directory i / 4096

pub record IsValid (s : Machine) : Type 0 where
  pub bytes : IsBytes s.pmm.bitmap
  pub small : IsSmall s.pmm
  pub entries : (i : ℕ) → s.page_directory i < u32_mod
  pub words : (f k : ℕ) → s.frames f k < u32_mod
  pub tables_used :
      (i : ℕ)
      → i < page_entries
      → is_absent (s.page_directory i) ≡ false
      → is_free s.pmm.bitmap (table_frame s i) ≡ false
  pub distinct :
      (i j : ℕ)
      → i < page_entries
      → j < page_entries
      → is_absent (s.page_directory i) ≡ false
      → is_absent (s.page_directory j) ≡ false
      → table_frame s i ≡ table_frame s j
      → i ≡ j
  pub near :
      (i : ℕ) → i < page_entries → is_absent (s.page_directory i) ≡ false → table_frame s i < 1024
  pub running : s.faulted ≡ false

-- A frame that `ensure_table` takes for a new table lies in the first 4 MB, which the heap does not map.
abbrev pub IsNear : Machine → ℕ → Type 0
IsNear s i = is_absent (s.page_directory i) ≡ true → or_null (Pmm.alloc_frame s.pmm).0 < 0x40_0000

-- The word that the directory and its tables hold for a page; 0 where there is no table.
abbrev pub cell : Machine → ℕ → ℕ → ℕ
cell s i k = if is_absent (s.page_directory i) then 0 else s.frames (table_phys s i) k

pub table_phys_lem : (s : Machine) (i : ℕ) → IsValid s → table_phys s i ≡ table_frame s i * 4096
table_phys_lem s i v = bit_and-page_mask (s.page_directory i) (v.entries i)

-- What `ensure_table` leaves to the rest of `paging_map_page`.
pub record Ensured (s : Machine) (i : ℕ) (s' : Machine) (found : Bool) : Type 0 where
  pub valid : IsValid s'
  pub present : found ≡ true → is_absent (s'.page_directory i) ≡ false
  pub missing : found ≡ false → is_absent (s'.page_directory i) ≡ true
  pub cells : (j k : ℕ) → j < page_entries → k < page_entries → cell s' j k ≡ cell s j k

abbrev pub cleared : Machine → ℕ → ℕ → ℕ
cleared s t = fill_with page_entries 0 (λ _. 0) (s.frames t)

-- The state with a new table at the address `t`.
abbrev pub with_table : Machine → ℕ → ℕ → ℕ → Pmm → Machine
with_table s i t flags q = record s {
  pmm = q;
  frames = update s.frames t (cleared s t);
  page_directory = update s.page_directory i (table_entry t flags);
  faulted = s.faulted || not (reaches t);
}

module _ (s : Machine) (i t flags : ℕ) (q : Pmm) (v : IsValid s) (lt : i < page_entries)
    (absent : is_absent (s.page_directory i) ≡ true) (page : t ≡ t / 4096 * 4096)
    (takes : Takes s.pmm (t / 4096) q) (close : t < 0x40_0000) where
  small_address : t < u32_mod
  small_address = omega (arith, takes.below_limit, v.small)

  new_entry :
      (table_entry t flags < u32_mod)
      × (table_entry t flags / 4096 ≡ t / 4096)
      × (table_entry t flags % 2 ≡ 1)
  new_entry = table_entry_lem t flags small_address

  new_present : is_absent (table_entry t flags) ≡ false
  new_present = ground (arith, present_bit (table_entry t flags), new_entry.2)

  new_phys : bit_and (table_entry t flags) page_mask ≡ t
  new_phys = omega (arith, bit_and-page_mask (table_entry t flags) new_entry.0, new_entry.1, page)

  -- A table that was there is in another frame.
  apart :
      (j : ℕ)
      → j < page_entries
      → is_absent (s.page_directory j) ≡ false
      → t / 4096 ≢ table_frame s j
  apart j h p e =
      false≢true (sym (v.tables_used j h p) ∙ ap (is_free s.pmm.bitmap) (sym e) ∙ takes.was_free)

  used_before :
      (j : ℕ)
      → j < page_entries
      → is_absent (s.page_directory j) ≡ false
      → is_free q.bitmap (table_frame s j) ≡ false
  used_before j h p =
      ground (arith, takes.frames (table_frame s j), v.tables_used j h p, apart j h p)

  cells_kept :
      (j k : ℕ)
      → j < page_entries
      → k < page_entries
      → cell (with_table s i t flags q) j k ≡ cell s j k
  cells_kept j k hj hk = elim (Bool-cases (is_absent (s.page_directory j))) [
    | inl gone ↦
        ground
          (arith, gone, new_present, new_phys, fill_with_lem page_entries 0 (λ _. 0) (s.frames t) k)
    | inr there ↦ ground (arith, absent, there, table_phys_lem s j v, apart j hj there, page)
  ]

  with_table-IsValid : IsValid (with_table s i t flags q)
  with_table-IsValid = record {
    bytes = takes.bytes;
    small = rw takes.total v.small;
    entries = λ j. ground (arith, v.entries j, new_entry.0);
    words = λ f k.
        ground
          (arith, v.words f k, v.words t k, fill_with_lem page_entries 0 (λ _. 0) (s.frames t) k);
    tables_used = λ j hj p. ground (arith, takes.frames (t / 4096), new_entry.1, used_before j hj);
    distinct = λ j k hj hk pj pk e.
        ground (arith, v.distinct j k hj hk, apart j hj, apart k hk, new_entry.1);
    near = λ j hj p. ground (arith, new_entry.1, v.near j hj, close);
    running = ground (arith, v.running, close);
  }

-- A frame taken from the allocator leaves the tables valid.
pub taken-IsValid :
    (s : Machine) (f : ℕ) (q : Pmm) → IsValid s → Takes s.pmm f q → IsValid (record s { pmm = q })
taken-IsValid s f q v takes = record {
  bytes = takes.bytes;
  small = rw takes.total v.small;
  entries = v.entries;
  words = v.words;
  tables_used = λ j hj p. ground (arith, takes.frames (table_frame s j), v.tables_used j hj p);
  distinct = v.distinct;
  near = v.near;
  running = v.running;
}

-- A table is added only behind an absent entry; no page's word changes with it.
add_table-Ensured :
    (s : Machine) (i flags : ℕ)
    → IsValid s
    → i < page_entries
    → is_absent (s.page_directory i) ≡ true
    → IsNear s i
    → Ensured s i (add_table s i flags).0 (add_table s i flags).1
unfolding add_table
add_table-Ensured s i flags v lt absent close =
    outcome (Pmm.alloc_frame s.pmm).0 (Pmm.alloc_frame s.pmm).1
      (alloc_frame-Allocates s.pmm v.bytes v.small) (close absent)
  where
    no_table : (q : Pmm) → IsValid (record s { pmm = q }) → Ensured s i (record s { pmm = q }) false
    no_table q w = record {
      valid = w;
      present = λ e. cc;
      missing = λ _. absent;
      cells = λ j k _ _. refl;
    }

    outcome :
        (o : Option ℕ) (q : Pmm)
        → Allocates s.pmm o q
        → or_null o < 0x40_0000
        → let r : Machine × Bool =
            if or_null o == 0
            then (record s { pmm = q }, false)
            else (with_table s i (or_null o) flags q, true) in
          Ensured s i r.0 r.1
    outcome none q a c = no_table q (rw a.0 v)
    outcome (some t) q a c = elim (Bool-cases (t == 0)) [
      | inl null ↦ rw null (no_table q (taken-IsValid s (t / 4096) q v a.1))
      | inr frame ↦ rw frame (record {
        valid = with_table-IsValid s i t flags q v lt absent a.0 a.1 c;
        present = λ _. ground (arith, new_present s i t flags q v lt absent a.0 a.1 c);
        missing = λ e. cc;
        cells = cells_kept s i t flags q v lt absent a.0 a.1 c;
      })
    ]

pub ensure_table-Ensured :
    (s : Machine) (i flags : ℕ)
    → IsValid s
    → i < page_entries
    → IsNear s i
    → Ensured s i (ensure_table s i flags).0 (ensure_table s i flags).1
unfolding ensure_table
ensure_table-Ensured s i flags v lt close = elim (Bool-cases (is_absent (s.page_directory i))) [
  | inl absent ↦ rw absent (add_table-Ensured s i flags v lt absent close)
  | inr there ↦
      rw there
        (record { valid = v; present = λ _. there; missing = λ e. cc; cells = λ j k _ _. refl })
]

-- A word written behind a present directory entry changes that page's word and no other.
pub cell-write_entry :
    (s : Machine) (i index entry j k : ℕ)
    → IsValid s
    → i < page_entries
    → j < page_entries
    → is_absent (s.page_directory i) ≡ false
    → cell (write_entry s i index entry) j k
      ≡ (if i == j then (if index == k then entry else cell s j k) else cell s j k)
unfolding write_entry
cell-write_entry s i index entry j k v hi hj there =
    ground (arith, there, table_phys_lem s i v, table_phys_lem s j v, v.distinct i j hi hj there)

pub write_entry-IsValid :
    (s : Machine) (i index entry : ℕ)
    → IsValid s
    → i < page_entries
    → is_absent (s.page_directory i) ≡ false
    → entry < u32_mod
    → IsValid (write_entry s i index entry)
unfolding write_entry
write_entry-IsValid s i index entry v lt there h = record {
  bytes = v.bytes;
  small = v.small;
  entries = v.entries;
  words = λ f k. ground (arith, v.words f k, v.words (table_phys s i) k, h);
  tables_used = v.tables_used;
  distinct = v.distinct;
  near = v.near;
  running = ground (arith, v.running, v.near i lt there, table_phys_lem s i v);
}
