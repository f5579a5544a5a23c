-- ===== src/Paging/Data.antt =====
-- kernel/paging.c: the frames that hold data, not page tables, under `paging_map_page`.
use tuple_os.Common.{
  ℕ, ◌*◌, ◌/◌, ◌<◌, ◌≡◌, ◌≢◌, refl, sym, ap, ◌∙◌, Bool, true, false, Option, none, some, arith,
  ◌==◌, if◌then◌else◌, Bool-cases, inl, inr, u32_mod,
}
use mathlib.Core.Bool.{false≢true}
use tuple_os.Pmm
use tuple_os.Pmm.{Pmm}
use tuple_os.Pmm.Bitmap.{is_free}
use tuple_os.Pmm.Frames.{Takes, Allocates, alloc_frame-Allocates}
use tuple_os.Paging.{
  Machine, is_absent, or_null, add_table, ensure_table, write_entry, page_entries, map_page,
  pd_index, pt_index, page_entry,
}
use tuple_os.Paging.Entries.{table_entry_lem}
use tuple_os.Paging.Tables.{
  IsValid, IsNear, table_frame, table_phys_lem, Ensured, ensure_table-Ensured, with_table,
}

-- No page table lies in frame `f`.
abbrev pub NoTable : Machine → ℕ → Type 0
NoTable s f =
    (i : ℕ) → i < page_entries → is_absent (s.page_directory i) ≡ false → table_frame s i ≢ f

-- Frame `f` is in use, and not for a page table.
pub record IsData (s : Machine) (f : ℕ) : Type 0 where
  pub in_use : is_free s.pmm.bitmap f ≡ false
  pub no_table : NoTable s f

-- The words of a frame.
abbrev pub SameWords : Machine → Machine → ℕ → Type 0
SameWords s s' f = (k : ℕ) → s'.frames (f * 4096) k ≡ s.frames (f * 4096) k

-- No frame in use is given back, and frames with data stay what they are.
pub record Keeps (s s' : Machine) : Type 0 where
  pub used : (g : ℕ) → is_free s.pmm.bitmap g ≡ false → is_free s'.pmm.bitmap g ≡ false
  pub kept : (g : ℕ) → IsData s g → IsData s' g × SameWords s s' g

pub Keeps-refl : (s : Machine) → Keeps s s
Keeps-refl s = record { used = λ g h. h; kept = λ g h. (h, λ k. refl) }

pub Keeps-trans : (s t u : Machine) → Keeps s t → Keeps t u → Keeps s u
Keeps-trans s t u a b = record {
  used = λ g h. b.used g (a.used g h);
  kept = λ g h.
      let (there, same) = a.kept g h in
      let (still, also) = b.kept g there in (still, λ k. also k ∙ same k);
}

-- A page table is made of a frame that was free.
with_table-Keeps :
    (s : Machine) (i t flags : ℕ) (q : Pmm)
    → IsValid s
    → t ≡ t / 4096 * 4096
    → Takes s.pmm (t / 4096) q
    → Keeps s (with_table s i t flags q)
with_table-Keeps s i t flags q v page takes =
    let small : t < u32_mod = omega (arith, takes.below_limit, v.small) in
    let entry = table_entry_lem t flags small in
    record {
      used = λ g h. ground (arith, takes.frames g, h);
      kept = λ g h.
          let other : t / 4096 ≢ g =
            λ e. false≢true (sym h.in_use ∙ ap (is_free s.pmm.bitmap) (sym e) ∙ takes.was_free) in
          (
            record {
              in_use = ground (arith, takes.frames g, h.in_use);
              no_table = λ j lt p. ground (arith, entry.1, h.no_table j lt, other, p);
            },
            λ k. ground (arith, other, page),
          );
    }

add_table-Keeps : (s : Machine) (i flags : ℕ) → IsValid s → Keeps s (add_table s i flags).0
unfolding add_table
add_table-Keeps s i flags v =
    outcome (Pmm.alloc_frame s.pmm).0 (Pmm.alloc_frame s.pmm).1
      (alloc_frame-Allocates s.pmm v.bytes v.small)
  where
    taken : (f : ℕ) (q : Pmm) → Takes s.pmm f q → Keeps s (record s { pmm = q })
    taken f q takes = record {
      used = λ g h. ground (arith, takes.frames g, h);
      kept = λ g h. (
        record { in_use = ground (arith, takes.frames g, h.in_use); no_table = h.no_table },
        λ k. refl,
      );
    }

    outcome :
        (o : Option ℕ) (q : Pmm)
        → Allocates s.pmm o q
        → let r : Machine × Bool =
            if or_null o == 0
            then (record s { pmm = q }, false)
            else (with_table s i (or_null o) flags q, true) in
          Keeps s r.0
    outcome none q a = rw a.0 (Keeps-refl s)
    outcome (some t) q a = elim (Bool-cases (t == 0)) [
      | inl null ↦ rw null (taken (t / 4096) q a.1)
      | inr frame ↦ rw frame (with_table-Keeps s i t flags q v a.0 a.1)
    ]

ensure_table-Keeps : (s : Machine) (i flags : ℕ) → IsValid s → Keeps s (ensure_table s i flags).0
unfolding ensure_table
ensure_table-Keeps s i flags v = elim (Bool-cases (is_absent (s.page_directory i))) [
  | inl e ↦ rw e (add_table-Keeps s i flags v)
  | inr e ↦ rw e (Keeps-refl s)
]

write_entry-Keeps :
    (s : Machine) (i index entry : ℕ)
    → IsValid s
    → i < page_entries
    → is_absent (s.page_directory i) ≡ false
    → Keeps s (write_entry s i index entry)
unfolding write_entry
write_entry-Keeps s i index entry v lt there = record {
  used = λ g h. h;
  kept = λ g h. (
    record { in_use = h.in_use; no_table = h.no_table },
    λ k. ground (arith, table_phys_lem s i v, h.no_table i lt there),
  );
}

-- `paging_map_page` gives no frame back, and changes no word of a frame that holds data.
pub map_page-Keeps :
    (s : Machine) (v p flags : ℕ)
    → IsValid s
    → v < u32_mod
    → IsNear s (pd_index v)
    → Keeps s (map_page s v p flags)
unfolding map_page
map_page-Keeps s v p flags valid hv close =
    mapped (ensure_table s (pd_index v) flags).0 (ensure_table s (pd_index v) flags).1
      (ensure_table-Ensured s (pd_index v) flags valid (omega arith) close)
      (ensure_table-Keeps s (pd_index v) flags valid)
  where
    mapped :
        (s' : Machine) (found : Bool)
        → Ensured s (pd_index v) s' found
        → Keeps s s'
        → Keeps s
            (if found then write_entry s' (pd_index v) (pt_index v) (page_entry p flags) else s')
    mapped s' true e k = Keeps-trans s s' _ k (
        write_entry-Keeps s' (pd_index v) (pt_index v) (page_entry p flags) e.valid (omega arith)
          (e.present refl))
    mapped s' false e k = k
