-- ===== src/Kheap/Grow.antt =====
-- kernel/kheap.c: `heap_expand` on the abstract heap.
use tuple_os.Common.{
  ℕ, zero, suc, ◌+◌, ◌-◌, ◌≤◌, ◌<◌, ◌≡◌, refl, sym, true, arith, List, [], ◌∷◌, if◌then◌else◌, ◌==◌,
  Bool-cases, inl, inr, length, some, update, u32_mod, add32, sub32,
}
use tuple_os.Kheap.{Header, last_block}
use tuple_os.Kheap.Blocks.{Block, Chain, allocated, live}

-- `n` more bytes at the end: the last block grows if it is free, and otherwise a block is added.
unfoldable pub grow : ℕ → Block → List Block → List Block
grow n b [] =
    if b.free
    then record { size = b.size + n; free = true } ∷ []
    else b ∷ (record { size = n - 12; free = true } ∷ [])
grow n b (c ∷ cs) = b ∷ grow n c cs

-- The address of the last block.
pub last_address : ℕ → Block → List Block → ℕ
last_address a b [] = a
last_address a b (c ∷ cs) = last_address (a + 12 + b.size) c cs

last_address-le : (a : ℕ) (b : Block) (bs : List Block) → a ≤ last_address a b bs
unfolding last_address
last_address-le a b [] = omega arith
last_address-le a b (c ∷ cs) = omega (arith, last_address-le (a + 12 + b.size) c cs)

pub last_block_lem :
    (n : ℕ) (cell : ℕ → Header) (a : ℕ) (b : Block) (bs : List Block) (e : ℕ)
    → length bs < n
    → 0 < a
    → Chain cell a a (b ∷ bs) e
    → last_block n cell a ≡ some (last_address a b bs)
unfolding last_block last_address
last_block_lem zero cell a b bs e h pos k = absurd (omega arith)
last_block_lem (suc n) cell a b [] e h pos k = ground (arith, k.3.0)
last_block_lem (suc n) cell a b (c ∷ cs) e h pos k =
    let rest =
      last_block_lem n cell (a + 12 + b.size) c cs e (omega arith) (omega arith)
        (refl, k.3.1, k.3.2, k.3.3) in
    ground (arith, k.3.0, rest)

-- The headers after the expansion: `last` is the last block and `e` the old end.
abbrev pub grown : (ℕ → Header) → ℕ → ℕ → ℕ → ℕ → Header
grown cell last e n =
    if (cell last).is_free == 0
    then update (update cell e (record { size = sub32 n 12; is_free = 1; next = 0 })) last
        (record (cell last) { next = e })
    else update cell last (record (cell last) { size = add32 (cell last).size n })

grown_before :
    (cell : ℕ → Header) (last e n x : ℕ) → x < last → last < e → grown cell last e n x ≡ cell x
grown_before cell last e n x lt h = ground arith

last_address-lt :
    (cell : ℕ → Header) (a : ℕ) (b : Block) (bs : List Block) (e : ℕ)
    → Chain cell a a (b ∷ bs) e
    → last_address a b bs < e
unfolding last_address
last_address-lt cell a b [] e k = omega arith
last_address-lt cell a b (c ∷ cs) e k =
    last_address-lt cell (a + 12 + b.size) c cs e (refl, k.3.1, k.3.2, k.3.3)

pub grown-Chain :
    (cell : ℕ → Header) (a : ℕ) (b : Block) (bs : List Block) (e n : ℕ)
    → e + n < u32_mod
    → 12 ≤ n
    → Chain cell a a (b ∷ bs) e
    → Chain (grown cell (last_address a b bs) e n) a a (grow n b bs) (e + n)
unfolding grow last_address
grown-Chain cell a b [] e n top room k = elim (Bool-cases b.free) [
  | inl free ↦
      let here : grown cell a e n a ≡ record (cell a) { size = b.size + n } =
        ground (arith, k.1, k.2, k.3) in
      rw (free, here) (refl, refl, ground (arith, k.2), (k.3.0, omega (arith, k.3.1)))
  | inr used ↦
      let here : grown cell a e n a ≡ record (cell a) { next = e } =
        ground (arith, k.1, k.2, k.3) in
      let end : grown cell a e n (a + 12 + b.size)
          ≡ record { size = n - 12; is_free = 1; next = 0 } =
        ground (arith, k.1, k.2, k.3) in
      rw (used, here, end)
        (
          refl,
          k.1,
          ground (arith, k.2, used),
          (sym k.3.1, refl, refl, (refl, omega (arith, k.3.1))),
        )
]
grown-Chain cell a b (c ∷ cs) e n top room k =
    let next : (cell a).next ≡ a + 12 + b.size = k.3.0 in
    let tail : Chain cell (a + 12 + b.size) (a + 12 + b.size) (c ∷ cs) e =
      (refl, k.3.1, k.3.2, k.3.3) in
    let here : grown cell (last_address (a + 12 + b.size) c cs) e n a ≡ cell a =
      grown_before cell (last_address (a + 12 + b.size) c cs) e n a
        (omega (arith, last_address-le (a + 12 + b.size) c cs))
        (last_address-lt cell (a + 12 + b.size) c cs e tail) in
    rw (here, next) (refl, k.1, k.2, grown-Chain cell (a + 12 + b.size) c cs e n top room tail)

pub allocated-grow :
    (n : ℕ) (b : Block) (bs : List Block) → allocated (grow n b bs) ≡ allocated (b ∷ bs)
unfolding grow allocated
allocated-grow n b [] = ground arith
allocated-grow n b (c ∷ cs) = omega (arith, allocated-grow n c cs)

pub live-grow : (n a : ℕ) (b : Block) (bs : List Block) → live a (grow n b bs) ≡ live a (b ∷ bs)
unfolding grow live
live-grow n a b [] = ground arith
live-grow n a b (c ∷ cs) = rw (live-grow n (a + 12 + b.size) c cs)
