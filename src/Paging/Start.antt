-- ===== src/Paging/Start.antt =====
-- kernel/paging.c: the directory and the tables of `paging_init`.
use tuple_os.Common.{
  ℕ, zero, suc, ◌+◌, ◌-◌, ◌*◌, ◌%◌, ◌≤◌, ◌<◌, ◌≡◌, refl, ap, ◌∙◌, true, false, Bool-cases, inl, inr,
  fill_with, arith, bit_or, bit_and, u32_mod, page_mask, leb, ltb, ◌&&◌, if◌then◌else◌, add32,
  mul32, Bool, bit_and-table_index, bit_and-page_offset, ◌/◌, ◌==◌, fill_with_lem,
  bit_and-page_mask,
}
use tuple_os.Paging.Entries.{present_bit, or_one-odd, or_odd, or_flags-lt, or_flags-div}
use tuple_os.Paging.{
  Machine, is_absent, pd_index, pt_index, table_phys, get_physical, virt_to_phys, init_table,
  init_tables, init,
}

init_tables_pmm : (n t : ℕ) (s : Machine) → (init_tables n t s).pmm ≡ s.pmm
unfolding init_tables init_table
init_tables_pmm zero t s = refl
init_tables_pmm (suc n) t s = init_tables_pmm n (t + 1) (init_table t s)

-- `paging_init` takes no frame.
pub init_pmm : (s : Machine) → (init s).pmm ≡ s.pmm
unfolding init
init_pmm s = init_tables_pmm 4 0 _

-- The physical address of a table.
abbrev table_at : Machine → ℕ → ℕ
table_at s t = virt_to_phys (add32 s.tables_addr (t * 4096))

-- The linker puts the four tables on page boundaries in the kernel's half of the addresses.
pub record IsLinked (s : Machine) : Type 0 where
  pub aligned : s.tables_addr % 4096 ≡ 0
  pub low : 0xc000_0000 ≤ s.tables_addr
  pub high : s.tables_addr + 4 * 4096 ≤ u32_mod

table_at_lem :
    (s : Machine) (t : ℕ)
    → IsLinked s
    → t < 4
    → table_at s t ≡ s.tables_addr - 0xc000_0000 + t * 4096
table_at_lem s t l low = omega (arith, l.low, l.high)

-- An address with the bits present and writable.
abbrev linear : ℕ → ℕ
linear a = bit_or (bit_or a 1) 2

linear_lem :
    (a : ℕ)
    → a < u32_mod
    → a % 4096 ≡ 0
    → (is_absent (linear a) ≡ false) × (bit_and (linear a) page_mask ≡ a)
linear_lem a small aligned =
    let odd : linear a % 2 ≡ 1 = or_odd (bit_or a 1) 2 (or_one-odd a) in
    let fits : linear a < u32_mod =
      or_flags-lt (bit_or a 1) 2 (or_flags-lt a 1 small (omega arith)) (omega arith) in
    (
      ground (arith, present_bit (linear a), odd),
      omega (
        arith,
        bit_and-page_mask (linear a) fits,
        or_flags-div (bit_or a 1) 2 (omega arith),
        or_flags-div a 1 (omega arith),
        aligned,
      ),
    )

-- A directory entry is that of one of the four tables, or not present.
init_directory :
    (s : Machine) (i : ℕ)
    → i < 1024
    → (init s).page_directory i
      ≡ (if leb 768 i && ltb i 772 then linear (table_at s (i - 768)) else 2)
unfolding init init_tables init_table
init_directory s i low = ground (arith, fill_with_lem 1024 0 (λ _. 2) s.page_directory i)

-- The words that `init_table` writes to table `t`.
abbrev identity : ℕ → ℕ → ℕ
identity t k = linear (mul32 (t * 1024 + k) 4096)

init_table_frames :
    (s : Machine) (t f k : ℕ)
    → k < 1024
    → (init_table t s).frames f k ≡ (if table_at s t == f then identity t k else s.frames f k)
unfolding init_table
init_table_frames s t f k low = elim (Bool-cases (table_at s t == f)) [
  | inl e ↦ rw e (fill_with_lem 1024 0 (identity t) (s.frames (table_at s t)) k ∙ ground arith)
  | inr e ↦ rw e refl
]

same_table :
    (s : Machine) (i t : ℕ) → IsLinked s → i < 4 → t < 4 → (table_at s i == table_at s t) ≡ (i == t)
same_table s i t l a b = ground (arith, table_at_lem s i l a, table_at_lem s t l b)

-- The last of four writes to table `t` counts.
pick :
    (v : ℕ → ℕ) (t a b c d e : ℕ)
    → t < 4
    → a ≡ (if 3 == t then v 3 else b)
    → b ≡ (if 2 == t then v 2 else c)
    → c ≡ (if 1 == t then v 1 else d)
    → d ≡ (if 0 == t then v 0 else e)
    → a ≡ v t
pick v t a b c d e low p q r s = ground arith

-- The tables hold the first 16 MB in order.
init_frames :
    (s : Machine) (t k : ℕ)
    → IsLinked s
    → t < 4
    → k < 1024
    → (init s).frames (table_at s t) k ≡ identity t k
unfolding init init_tables init_table
init_frames s t k l low small =
    let s0 : Machine = record s { page_directory = fill_with 1024 0 (λ _. 2) s.page_directory } in
    let s1 = init_table 0 s0 in
    let s2 = init_table 1 s1 in
    let s3 = init_table 2 s2 in
    let f = table_at s t in
    let a3 : (init s).frames f k ≡ (if table_at s 3 == f then identity 3 k else s3.frames f k) =
      init_table_frames s3 3 f k small in
    let a2 : s3.frames f k ≡ (if table_at s 2 == f then identity 2 k else s2.frames f k) =
      init_table_frames s2 2 f k small in
    let a1 : s2.frames f k ≡ (if table_at s 1 == f then identity 1 k else s1.frames f k) =
      init_table_frames s1 1 f k small in
    let a0 : s1.frames f k ≡ (if table_at s 0 == f then identity 0 k else s.frames f k) =
      init_table_frames s0 0 f k small in
    pick (λ i. identity i k) t _ _ _ _ _ low
      (a3
        ∙ ap (λ b. if b then identity 3 k else s3.frames f k)
            (same_table s 3 t l (omega arith) low))
      (a2
        ∙ ap (λ b. if b then identity 2 k else s2.frames f k)
            (same_table s 2 t l (omega arith) low))
      (a1
        ∙ ap (λ b. if b then identity 1 k else s1.frames f k)
            (same_table s 1 t l (omega arith) low))
      (a0
        ∙ ap (λ b. if b then identity 0 k else s.frames f k) (same_table s 0 t l (omega arith) low))

abbrev pub in_first : ℕ → Bool
in_first v = leb 0xc000_0000 v && ltb v 0xc100_0000

table_aligned :
    (s : Machine) (t : ℕ)
    → IsLinked s
    → t < 4
    → (table_at s t < u32_mod) × (table_at s t % 4096 ≡ 0)
table_aligned s t l low =
    let p = table_at_lem s t l low in (omega (arith, p, l.high), omega (arith, p, l.aligned, l.low))

-- The word of the tables for an address of the first 16 MB behind the kernel's base.
first_word :
    (s : Machine) (v : ℕ)
    → IsLinked s
    → 0xc000_0000 ≤ v
    → v < 0xc100_0000
    → (is_absent ((init s).page_directory (pd_index v)) ≡ false)
      × ((init s).frames (table_phys (init s) (pd_index v)) (pt_index v)
          ≡ identity (pd_index v - 768) (pt_index v))
first_word s v l lo hi =
    let t = pd_index v - 768 in
    let near : t < 4 = omega arith in
    let small : pt_index v < 1024 = omega (arith, bit_and-table_index (v / 4096)) in
    let dir : (init s).page_directory (pd_index v) ≡ linear (table_at s t) =
      init_directory s (pd_index v) (omega arith) ∙ ground arith in
    let (size, aligned) = table_aligned s t l near in
    let (there, masked) = linear_lem (table_at s t) size aligned in
    (
      ap is_absent dir ∙ there,
      ap (λ f. (init s).frames f (pt_index v)) (ap (λ w. bit_and w page_mask) dir ∙ masked)
          ∙ init_frames s t (pt_index v) l near small,
    )

page_number :
    (v : ℕ)
    → 0xc000_0000 ≤ v
    → v < 0xc100_0000
    → mul32 ((pd_index v - 768) * 1024 + pt_index v) 4096 ≡ (v - 0xc000_0000) / 4096 * 4096
page_number v lo hi = omega (arith, bit_and-table_index (v / 4096))

-- With the four tables on page boundaries in the kernel's half of the addresses, behind `paging_init` the
-- first 16 MB of physical memory are mapped in order from the kernel's base on, and no other address is.
pub get_physical-init :
    (s : Machine) (v : ℕ)
    → IsLinked s
    → v < u32_mod
    → get_physical (init s) v ≡ (if in_first v then v - 0xc000_0000 else 0)
unfolding get_physical
get_physical-init s v l small = elim (Bool-cases (in_first v)) [
  | inl first ↦
      let (there, word) = first_word s v l (ground (arith, first)) (ground (arith, first)) in
      let page = page_number v (ground (arith, first)) (ground (arith, first)) in
      let (present, masked) =
        linear_lem (mul32 ((pd_index v - 768) * 1024 + pt_index v) 4096) (omega arith)
          (omega (arith, page)) in
      let lo : 0xc000_0000 ≤ v = ground (arith, first) in
      let hi : v < 0xc100_0000 = ground (arith, first) in
      rw (there, word, present, masked, first) (omega (arith, page, bit_and-page_offset v, lo, hi))
  | inr other ↦
      let outside : leb 768 (pd_index v) && ltb (pd_index v) 772 ≡ false =
        ground (arith, other, small) in
      let absent : is_absent ((init s).page_directory (pd_index v)) ≡ true =
        ap is_absent (init_directory s (pd_index v) (omega arith)) ∙ rw outside refl in
      rw (absent, other) refl
]
