-- ===== src/Kheap/Fit.antt =====
-- kernel/kheap.c: `find_free_block` and `split_block` as first fit on the abstract heap.
use tuple_os.Common.{
  ℕ, zero, suc, ◌+◌, ◌-◌, ◌≤◌, ◌<◌, ◌≡◌, ◌≢◌, refl, ap, Bool, true, false, arith, List, [], ◌∷◌,
  leb, ◌&&◌, if◌then◌else◌, length, ◌==◌, some, u32_mod, update, Bool-cases, inl, inr,
}
use native.Mathlib.Decide.{dec_le}
use tuple_os.Kheap.{Header, find_free_block, split_block}
use tuple_os.Kheap.Blocks.{Block, Chain, Chain-le, Chain-frame}

abbrev pub fits : ℕ → Block → Bool
fits size b = b.free && leb size b.size

-- The address of the first free block that is large enough; 0 when there is none.
unfoldable pub find_fit : ℕ → ℕ → List Block → ℕ
find_fit size a [] = 0
find_fit size a (b ∷ bs) = if fits size b then a else find_fit size (a + 12 + b.size) bs

-- A block that is taken: the rest is split off when it has room for a header and 32 bytes.
abbrev pub split : ℕ → Block → List Block → List Block
split size b bs =
    if leb (size + 44) b.size
    then record { size = size; free = false }
      ∷ (record { size = b.size - size - 12; free = true } ∷ bs)
    else record b { free = false } ∷ bs

unfoldable pub take_fit : ℕ → List Block → List Block
take_fit size [] = []
take_fit size (b ∷ bs) = if fits size b then split size b bs else b ∷ take_fit size bs

-- The walk of `find_free_block` finds the first fit, on fuel for one more than the blocks.
pub find_free_block_lem :
    (n : ℕ) (cell : ℕ → Header) (p a : ℕ) (bs : List Block) (e size : ℕ)
    → length bs < n
    → 0 < a
    → Chain cell p a bs e
    → find_free_block n cell p size ≡ some (find_fit size a bs)
unfolding find_free_block find_fit
find_free_block_lem zero cell p a bs e size h pos c = absurd (omega arith)
find_free_block_lem (suc n) cell p a [] e size h pos c = ground arith
find_free_block_lem (suc n) cell p a (b ∷ bs) e size h pos c =
    let rest =
      find_free_block_lem n cell (cell a).next (a + 12 + b.size) bs e size (omega arith)
        (omega arith) c.3 in
    ground (arith, rest)

pub find_fit-bounds :
    (size a : ℕ) (bs : List Block) → find_fit size a bs ≢ 0 → a ≤ find_fit size a bs
unfolding find_fit
find_fit-bounds size a [] h = absurd (h refl)
find_fit-bounds size a (b ∷ bs) h = ground (arith, find_fit-bounds size (a + 12 + b.size) bs)

-- The block at the first fit lies in the range and is free.
pub find_fit_block :
    (cell : ℕ → Header) (q a : ℕ) (bs : List Block) (e size : ℕ)
    → Chain cell q a bs e
    → find_fit size a bs ≢ 0
    → (size ≤ (cell (find_fit size a bs)).size)
      × (find_fit size a bs + 12 + (cell (find_fit size a bs)).size ≤ e)
      × ((cell (find_fit size a bs)).is_free ≡ 1)
unfolding find_fit
find_fit_block cell q a [] e size c h = absurd (h refl)
find_fit_block cell q a (b ∷ bs) e size c h = elim (Bool-cases (fits size b)) [
  | inl fit ↦ rw fit (
    ground (arith, fit),
    omega (arith, Chain-le cell (cell a).next (a + 12 + b.size) bs e c.3),
    ground (arith, fit),
  )
  | inr miss ↦
      rw miss (find_fit_block cell (cell a).next (a + 12 + b.size) bs e size c.3 (rw miss at h))
]

-- The headers after `kmalloc` took the block `p`.
abbrev pub taken : (ℕ → Header) → ℕ → ℕ → ℕ → Header
taken cell p size =
    update (split_block cell p size) p (record (split_block cell p size p) { is_free = 0 })

taken_before :
    (cell : ℕ → Header) (p size x : ℕ)
    → p + 12 + size < u32_mod
    → x < p
    → taken cell p size x ≡ cell x
unfolding split_block
taken_before cell p size x h lt = ground arith

-- The part of the list behind a block that is taken.
taken_after :
    (cell : ℕ → Header) (p size x : ℕ)
    → p + 12 + size < u32_mod
    → p + 12 + size < x
    → taken cell p size x ≡ cell x
unfolding split_block
taken_after cell p size x h lt = ground arith

-- A block with room is split in two headers.
split_headers :
    (cell : ℕ → Header) (a size : ℕ)
    → a + 12 + (cell a).size < u32_mod
    → 44 ≤ a
    → size + 44 ≤ (cell a).size
    → (taken cell a size a ≡ record { size = size; is_free = 0; next = a + 12 + size })
      × (taken cell a size (a + 12 + size)
          ≡ record { size = (cell a).size - size - 12; is_free = 1; next = (cell a).next })
unfolding split_block
split_headers cell a size range pos room = (ground arith, ground arith)

-- A block without room is taken whole.
whole_header :
    (cell : ℕ → Header) (a size : ℕ)
    → a + 12 + (cell a).size < u32_mod
    → 44 ≤ a
    → size ≤ (cell a).size
    → (cell a).size < size + 44
    → (x : ℕ) → taken cell a size x ≡ (if a == x then record (cell a) { is_free = 0 } else cell x)
unfolding split_block
whole_header cell a size range pos fit room x = ground arith

taken_here :
    (cell : ℕ → Header) (q a : ℕ) (b : Block) (bs : List Block) (e size : ℕ)
    → 44 ≤ a
    → e < u32_mod
    → fits size b ≡ true
    → Chain cell q a (b ∷ bs) e
    → Chain (taken cell a size) q a (split size b bs) e
taken_here cell q a b bs e size pos top fit c = elim (dec_le (size + 44) b.size) [
  | yes large ↦
      let h = split_headers cell a size (omega (arith, range)) pos (omega arith) in
      let rest : Chain (taken cell a size) (cell a).next (a + 12 + b.size) bs e =
        Chain-frame cell (taken cell a size) (cell a).next (a + 12 + b.size) bs e
          (λ x lo hi. taken_after cell a size x (omega (arith, range)) (omega arith)) c.3 in
      let same : a + 12 + size + 12 + (b.size - size - 12) ≡ a + 12 + b.size = omega arith in
      let split' : leb (size + 44) b.size ≡ true = ground arith in
      rw (split', h.0, h.1, same) (c.0, refl, refl, (refl, ap (λ t. t - size - 12) c.1, refl, rest))
  | no small ↦
      let h =
        whole_header cell a size (omega (arith, range)) pos (ground (arith, fit)) (omega arith) in
      let rest : Chain (taken cell a size) (cell a).next (a + 12 + b.size) bs e =
        Chain-frame cell (taken cell a size) (cell a).next (a + 12 + b.size) bs e
          (λ x lo hi. ground (arith, h x)) c.3 in
      let split' : leb (size + 44) b.size ≡ false = ground arith in
      let here : taken cell a size a ≡ record (cell a) { is_free = 0 } = ground (arith, h a) in
      rw (split', here) (c.0, c.1, refl, rest)
]
  where
    range : a + 12 + b.size ≤ e
    range = omega (arith, Chain-le cell (cell a).next (a + 12 + b.size) bs e c.3)

-- Taking the first fit takes it in the abstract heap.
pub taken-Chain :
    (cell : ℕ → Header) (q a : ℕ) (bs : List Block) (e size : ℕ)
    → 44 ≤ a
    → e < u32_mod
    → find_fit size a bs ≢ 0
    → Chain cell q a bs e
    → Chain (taken cell (find_fit size a bs) size) q a (take_fit size bs) e
unfolding find_fit take_fit
taken-Chain cell q a [] e size pos top found c = absurd (found refl)
taken-Chain cell q a (b ∷ bs) e size pos top found c = elim (Bool-cases (fits size b)) [
  | inl fit ↦ rw fit (taken_here cell q a b bs e size pos top fit c)
  | inr miss ↦
      let found' : find_fit size (a + 12 + b.size) bs ≢ 0 = rw miss at found in
      let lo = find_fit-bounds size (a + 12 + b.size) bs found' in
      let hi = find_fit_block cell (cell a).next (a + 12 + b.size) bs e size c.3 found' in
      let here : taken cell (find_fit size (a + 12 + b.size) bs) size a ≡ cell a =
        taken_before cell (find_fit size (a + 12 + b.size) bs) size a (omega arith) (omega arith) in
      rw (miss, here)
        (
          c.0,
          c.1,
          c.2,
          taken-Chain cell (cell a).next (a + 12 + b.size) bs e size (omega arith) top found' c.3,
        )
]
