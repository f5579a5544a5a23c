-- ===== src/Kheap/Expand.antt =====
-- kernel/kheap.c: `heap_expand` on a well formed heap.
use tuple_os.Common.{
  zero, suc, ap, ℕ, ◌+◌, ◌*◌, ◌/◌, ◌≤◌, ◌<◌, ◌≡◌, refl, sym, ◌∙◌, Bool, true, false, arith, List,
  [], ◌∷◌, ◌==◌, Bool-cases, inl, inr, some, add32, page_up, page_up_lem, ltb, page_size,
}
use tuple_os.Pmm
use tuple_os.Paging.{
  Machine, has_table, is_absent, pd_index, ensure_table, write_entry, map_page, or_null,
}
use tuple_os.Kheap.{Heap, fuel, extend, heap_expand, map_pages, has_tables}
use tuple_os.Kheap.Blocks.{Block, live}
use tuple_os.Kheap.Grow.{
  grow, grown, grown-Chain, last_address, last_block_lem, allocated-grow, live-grow,
}
use tuple_os.Kheap.Correct.{IsValid, enough}

-- The heap `h` is well formed, and callers hold in it what they held in the blocks `bs`.
pub record Keeps (start : ℕ) (bs : List Block) (h : Heap) (bs' : List Block) : Type 0 where
  pub valid : IsValid h bs'
  pub start_kept : h.heap_start ≡ start
  pub held : live start bs' ≡ live start bs

extend_lem :
    (h : Heap) (last n : ℕ)
    → extend h last n
      ≡ record h { cell = grown h.cell last h.heap_end n; heap_end = add32 h.heap_end n }
unfolding extend
extend_lem h last n = elim (Bool-cases ((h.cell last).is_free == 0)) [
  | inl used ↦ rw (used, extend)
  | inr free ↦ rw (free, extend)
]

-- The machine does not enter the form of the heap.
remapped :
    (h : Heap) (bs : List Block) (m : Machine)
    → IsValid h bs
    → IsValid (record h { machine = m }) bs
remapped h bs m v = record {
  chain = v.chain;
  first = v.first;
  low = v.low;
  high = v.high;
  limit = v.limit;
  counted = v.counted;
}

extend-Keeps :
    (h : Heap) (b : Block) (bs : List Block) (n : ℕ)
    → IsValid h (b ∷ bs)
    → 12 ≤ n
    → h.heap_end + n ≤ h.heap_max
    → Keeps h.heap_start (b ∷ bs) (extend h (last_address h.heap_start b bs) n) (grow n b bs)
extend-Keeps h b bs n v room fits =
    let end : add32 h.heap_end n ≡ h.heap_end + n = omega (arith, v.limit) in
    rw (extend_lem h (last_address h.heap_start b bs) n, end)
      (record {
        valid = record {
          chain =
              grown-Chain h.cell h.heap_start b bs h.heap_end n (omega (arith, v.limit)) room
                v.chain;
          first = v.first;
          low = v.low;
          high = fits;
          limit = v.limit;
          counted = v.counted ∙ sym (allocated-grow n b bs);
        };
        start_kept = refl;
        held = live-grow n h.heap_start b bs;
      })

ensure_table_kept :
    (s : Machine) (i flags : ℕ)
    → is_absent (s.page_directory i) ≡ false
    → ensure_table s i flags ≡ (s, true)
unfolding ensure_table
ensure_table_kept s i flags there = rw there refl

-- With a table for the page, `paging_map_page` keeps the directory.
map_page-directory :
    (s : Machine) (v p flags : ℕ)
    → has_table s v ≡ true
    → (map_page s v p flags).page_directory ≡ s.page_directory
unfolding map_page write_entry
map_page-directory s v p flags there =
    rw (ensure_table_kept s (pd_index v) flags (ground (arith, there))) refl

map_pages-directory :
    (n i base : ℕ) (m : Machine)
    → ((j : ℕ) → i ≤ j → j < i + n * 4096 → has_table m (add32 base j) ≡ true)
    → (map_pages n i base m).0.page_directory ≡ m.page_directory
unfolding map_pages
map_pages-directory zero i base m h = refl
map_pages-directory (suc n) i base m h =
    let taken : Machine = record m { pmm = (Pmm.alloc_frame m.pmm).1 } in
    let frame = or_null (Pmm.alloc_frame m.pmm).0 in
    let next : Machine = map_page taken (add32 base i) frame 3 in
    let same : next.page_directory ≡ m.page_directory =
      map_page-directory taken (add32 base i) frame 3 (h i (omega arith) (omega arith)) in
    let later =
      map_pages-directory n (i + page_size) base next
        (λ j lo hi. ground (arith, same, h j (omega arith) (omega arith))) in
    elim (Bool-cases (frame == 0)) [
      | inl none_left ↦ rw none_left refl
      | inr there ↦ rw there (later ∙ same)
    ]

has_tables_lem :
    (n i base : ℕ) (m m' : Machine)
    → m'.page_directory ≡ m.page_directory
    → ((j : ℕ) → i ≤ j → j < i + n * 4096 → has_table m (add32 base j) ≡ true)
    → has_tables n i base m' ≡ true
unfolding has_tables
has_tables_lem zero i base m m' e h = refl
has_tables_lem (suc n) i base m m' e h = ground (
  arith,
  e,
  h i (omega arith) (omega arith),
  has_tables_lem n (i + page_size) base m m' e (λ j lo hi. h j (omega arith) (omega arith)),
)

-- Behind the end of the heap there are page tables for `size` bytes, as far as the heap may grow.
abbrev pub HasTables : Heap → ℕ → Type 0
HasTables h size =
    (a : ℕ) → h.heap_end ≤ a → a < h.heap_end + size → a < h.heap_max → has_table h.machine a ≡ true

-- What the answer `r` of `heap_expand` stands for.
pub record Expanded (h : Heap) (bs : List Block) (min_size : ℕ) : Type 0 where
  pub answer : Bool
  pub after : Heap
  pub blocks : List Block
  pub runs : heap_expand h min_size ≡ some (answer, after)
  pub keeps : Keeps h.heap_start bs after blocks

-- On a well formed heap with page tables for the pages behind it, and for a size above 0 and below 256 MB,
-- `heap_expand` ends, keeps the heap
-- well formed, and takes nothing from its callers.
pub heap_expand_lem :
    (h : Heap) (bs : List Block) (min_size : ℕ)
    → IsValid h bs
    → 0 < min_size
    → min_size < 0x1000_0000
    → HasTables h (page_up min_size)
    → Expanded h bs min_size
unfolding heap_expand
heap_expand_lem h [] min_size v pos small tables = absurd (omega (arith, v.chain.0, v.low))
heap_expand_lem h (b ∷ bs) min_size v pos small tables =
    elim (Bool-cases (ltb h.heap_max (add32 h.heap_end (page_up min_size)))) [
      | inl over ↦ record {
        answer = false;
        after = h;
        blocks = b ∷ bs;
        runs = rw over;
        keeps = record { valid = v; start_kept = refl; held = refl };
      }
      | inr inside ↦
          mapped (map_pages (page_up min_size / page_size) 0 h.heap_end h.machine).0
            (map_pages (page_up min_size / page_size) 0 h.heap_end h.machine).1 refl inside
    ]
  where
    mapped :
        (m : Machine) (ok : Bool)
        → map_pages (page_up min_size / page_size) 0 h.heap_end h.machine ≡ (m, ok)
        → ltb h.heap_max (add32 h.heap_end (page_up min_size)) ≡ false
        → Expanded h (b ∷ bs) min_size
    mapped m false e inside = record {
      answer = false;
      after = record h { machine = m };
      blocks = b ∷ bs;
      runs = rw (inside, e);
      keeps = record { valid = remapped h (b ∷ bs) m v; start_kept = refl; held = refl };
    }
    mapped m true e inside =
        let size : page_up min_size ≡ (min_size + 4095) / 4096 * 4096 =
          omega (arith, page_up_lem min_size) in
        let last =
          last_block_lem (fuel h) h.cell h.heap_start b bs h.heap_end
            (omega (arith, enough h (b ∷ bs) v)) (omega (arith, v.low)) v.chain in
        let fits : h.heap_end + page_up min_size ≤ h.heap_max =
          ground (arith, size, v.high, v.limit) in
        let pages = page_up min_size / page_size in
        let there : (j : ℕ)
            → 0 ≤ j
            → j < 0 + pages * 4096
            → has_table h.machine (add32 h.heap_end j) ≡ true =
          λ j lo hi.
            tables (add32 h.heap_end j) (omega (arith, v.high, v.limit, size, fits))
              (omega (arith, v.high, v.limit, size, fits))
              (omega (arith, v.high, v.limit, size, fits)) in
        let backed : has_tables pages 0 h.heap_end m ≡ true =
          has_tables_lem pages 0 h.heap_end h.machine m
            (sym (ap (λ r. r.0.page_directory) e)
              ∙ map_pages-directory pages 0 h.heap_end h.machine there)
            there in
        record {
          answer = true;
          after =
              extend (record h { machine = m }) (last_address h.heap_start b bs) (page_up min_size);
          blocks = grow (page_up min_size) b bs;
          runs = ground (arith, inside, e, v.first, v.low, last, backed);
          keeps =
              extend-Keeps (record h { machine = m }) b bs (page_up min_size)
                (remapped h (b ∷ bs) m v) (omega (arith, size)) fits;
        }
