-- ===== src/Kheap/Merge.antt =====
-- kernel/kheap.c: `merge_free_blocks` over the headers is `coalesce` on the abstract heap.
use tuple_os.Common.{
  ℕ, zero, suc, ◌+◌, ◌<◌, ◌≡◌, ◌≢◌, refl, sym, ap, ◌∙◌, true, false, arith, List, [], ◌∷◌, ◌&&◌,
  Bool-cases, inl, inr, ◌⊎◌, length, some, update, u32_mod, add32,
}
use mathlib.Core.Path.{subst}
use tuple_os.Kheap.{Header, merge_free_blocks, header_size}
use tuple_os.Kheap.Blocks.{Block, Chain, Chain-le, Chain-frame}
use tuple_os.Kheap.Coalesce.{
  coalesce, coalesce_both, coalesce_apart, coalesce_last, merged, release, release_here,
  release_later, Held, Held-le,
}

-- The headers `cell'` are those of `cell` merged from the block at `a` on.
pub record Merged (cell : ℕ → Header) (a : ℕ) (bs : List Block) (e : ℕ) (cell' : ℕ → Header)
    : Type 0 where
  pub chain : Chain cell' a a bs e
  pub before : (x : ℕ) → x < a → cell' x ≡ cell x
  pub flags : (x : ℕ) → (cell' x).is_free ≡ (cell x).is_free

-- One round of the loop, where two free blocks meet.
abbrev joined : (ℕ → Header) → ℕ → ℕ → Header
joined cell a = update cell a (record (cell a) {
  size = add32 (cell a).size (add32 header_size (cell (cell a).next).size);
  next = (cell (cell a).next).next;
})

joined-Chain :
    (cell : ℕ → Header) (a : ℕ) (b c : Block) (cs : List Block) (e : ℕ)
    → 0 < a
    → e < u32_mod
    → b.free && c.free ≡ true
    → Chain cell a a (b ∷ (c ∷ cs)) e
    → Chain (joined cell a) a a (merged b c ∷ cs) e
joined-Chain cell a b c cs e pos top both k =
    let next : (cell a).next ≡ a + 12 + b.size = k.3.0 in
    let tail : Chain cell (cell (a + 12 + b.size)).next (a + 12 + b.size + 12 + c.size) cs e =
      k.3.3 in
    let range =
      Chain-le cell (cell (a + 12 + b.size)).next (a + 12 + b.size + 12 + c.size) cs e tail in
    let here : joined cell a a ≡ record {
      size = b.size + 12 + c.size;
      is_free = (cell a).is_free;
      next = (cell (a + 12 + b.size)).next;
    } =
      ground (arith, next, k.1, k.3.1, range) in
    let same : a + 12 + (b.size + 12 + c.size) ≡ a + 12 + b.size + 12 + c.size = omega arith in
    rw (here, same)
      (
        refl,
        refl,
        ground (arith, k.2, both),
        Chain-frame cell (joined cell a) (cell (a + 12 + b.size)).next
            (a + 12 + b.size + 12 + c.size) cs e (λ x lo hi. ground arith) tail,
      )

merge_both :
    (n : ℕ) (cell : ℕ → Header) (a : ℕ)
    → a ≢ 0
    → (cell a).next ≢ 0
    → (cell a).is_free ≢ 0
    → (cell (cell a).next).is_free ≢ 0
    → merge_free_blocks (suc n) cell a ≡ merge_free_blocks n (joined cell a) a
unfolding merge_free_blocks
merge_both n cell a pos next here after = ground arith

merge_advance :
    (n : ℕ) (cell : ℕ → Header) (a : ℕ)
    → a ≢ 0
    → (cell a).next ≢ 0
    → ((cell a).is_free ≡ 0) ⊎ ((cell (cell a).next).is_free ≡ 0)
    → merge_free_blocks (suc n) cell a ≡ merge_free_blocks n cell (cell a).next
unfolding merge_free_blocks
merge_advance n cell a pos next h = ground arith

merge_last :
    (n : ℕ) (cell : ℕ → Header) (a : ℕ)
    → (cell a).next ≡ 0
    → merge_free_blocks (suc n) cell a ≡ some cell
unfolding merge_free_blocks
merge_last n cell a next = ground arith

one_used :
    (cell : ℕ → Header) (a : ℕ) (b c : Block) (cs : List Block) (e : ℕ)
    → Chain cell a a (b ∷ (c ∷ cs)) e
    → b.free && c.free ≡ false
    → ((cell a).is_free ≡ 0) ⊎ ((cell (cell a).next).is_free ≡ 0)
one_used cell a b c cs e k apart = elim (Bool-cases b.free) [
  | inl free ↦ inr (ground (arith, k.3.2, k.3.0, apart))
  | inr used ↦ inl (ground (arith, k.2))
]

-- Fuel for one more round than the blocks behind the first is enough.
pub merge_free_blocks-Merged :
    (n : ℕ) (cell : ℕ → Header) (a : ℕ) (b : Block) (bs : List Block) (e : ℕ)
    → length bs < n
    → 0 < a
    → e < u32_mod
    → Chain cell a a (b ∷ bs) e
    → (cell' : ℕ → Header) × (merge_free_blocks n cell a ≡ some cell')
      × Merged cell a (coalesce b bs) e cell'
merge_free_blocks-Merged zero cell a b bs e h pos top k = absurd (omega arith)
merge_free_blocks-Merged (suc n) cell a b [] e h pos top k = (
  cell,
  merge_last n cell a k.3.0,
  record { chain = rw coalesce_last k; before = λ x lt. refl; flags = λ x. refl },
)
merge_free_blocks-Merged (suc n) cell a b (c ∷ cs) e h pos top k =
    elim (Bool-cases (b.free && c.free)) [
      | inl both ↦
          let (cell', r, m) =
            merge_free_blocks-Merged n (joined cell a) a (merged b c) cs e (omega arith) pos top
              (joined-Chain cell a b c cs e pos top both k) in
          (
            cell',
            merge_both n cell a (omega arith) (omega (arith, k.3.0)) (ground (arith, k.2, both))
                  (ground (arith, k.3.2, k.3.0, both))
                ∙ r,
            record {
              chain = rw (coalesce_both b c cs both) m.chain;
              before = λ x lt. m.before x lt ∙ (ground arith);
              flags = λ x. m.flags x ∙ (ground arith);
            },
          )
      | inr apart ↦
          let next : (cell a).next ≡ a + 12 + b.size = k.3.0 in
          let (cell', r, m) =
            merge_free_blocks-Merged n cell (a + 12 + b.size) c cs e (omega arith) (omega arith) top
              (refl, k.3.1, k.3.2, k.3.3) in
          let kept : cell' a ≡ cell a = m.before a (omega arith) in
          (
            cell',
            merge_advance n cell a (omega arith) (omega (arith, next))
                  (one_used cell a b c cs e k apart)
                ∙ ap (λ q. merge_free_blocks n cell q) next
                ∙ r,
            record {
              chain = rw (coalesce_apart b c cs apart, kept, next) (refl, k.1, k.2, m.chain);
              before = λ x lt. m.before x (omega arith);
              flags = m.flags;
            },
          )
    ]

-- The headers once the flag of the block at `p` is set, as `kfree` does first.
abbrev pub freed : (ℕ → Header) → ℕ → ℕ → Header
freed cell p = update cell p (record (cell p) { is_free = 1 })

freed_head :
    (cell : ℕ → Header) (q a : ℕ) (b : Block) (bs : List Block) (e : ℕ)
    → Chain cell q a (b ∷ bs) e
    → Chain (freed cell a) q a (record b { free = true } ∷ bs) e
freed_head cell q a b bs e k =
    let here : freed cell a a ≡ record (cell a) { is_free = 1 } = ground arith in
    rw here (
      k.0,
      k.1,
      refl,
      Chain-frame cell (freed cell a) (cell a).next (a + 12 + b.size) bs e (λ x lo hi. ground arith)
          k.3,
    )

pub freed_Chain :
    (cell : ℕ → Header) (q p size a : ℕ) (bs : List Block) (e : ℕ)
    → Held p size a bs
    → Chain cell q a bs e
    → ((cell p).is_free ≡ 0) × ((cell p).size ≡ size) × Chain (freed cell p) q a (release p a bs) e
freed_Chain cell q p size a [] e held k = absurd held
freed_Chain cell q p size a (b ∷ bs) e (inl held) k = (
  ground (arith, k.2, held.0, held.1),
  ground (arith, k.1, held.0, held.2),
  rw (release_here p a b bs held.0) (
      subst (λ t. Chain (freed cell t) q a (record b { free = true } ∷ bs) e) (sym held.0)
        (freed_head cell q a b bs e k)),
)
freed_Chain cell q p size a (b ∷ bs) e (inr held) k =
    let below = Held-le p size (a + 12 + b.size) bs held in
    let rest = freed_Chain cell (cell a).next p size (a + 12 + b.size) bs e held k.3 in
    let here : freed cell p a ≡ cell a = ground (arith, below) in
    rw (release_later p a b bs (omega arith)) (rest.0, rest.1, rw here (k.0, k.1, k.2, rest.2))
