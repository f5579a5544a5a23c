-- ===== src/Kheap/Correct.antt =====
-- kernel/kheap.c: `kmalloc` and `kfree` keep the heap well formed and honour their callers.
use tuple_os.Common.{ℕ, ◌+◌, ◌*◌, ◌≤◌, ◌<◌, ◌≡◌, ◌≢◌, arith, List, [], ◌∷◌, length, some, u32_mod}
use tuple_os.Kheap.{Header, Heap, fuel, find_free_block, take_block}
use tuple_os.Kheap.Blocks.{Block, Chain, allocated}
use tuple_os.Kheap.Fit.{find_fit, find_free_block_lem, take_fit, taken, taken-Chain}
use tuple_os.Kheap.Live.{split_block-size, allocated-take_fit}

-- The heap's headers tile its range as these blocks, and the statistics count the allocated bytes.
pub record IsValid (h : Heap) (bs : List Block) : Type 0 where
  pub chain : Chain h.cell h.heap_start h.heap_start bs h.heap_end
  pub first : h.first_block ≡ h.heap_start
  pub low : 44 ≤ h.heap_start
  pub high : h.heap_end ≤ h.heap_max
  pub limit : h.heap_max ≤ 0xe000_0000
  pub counted : h.total_allocated ≡ allocated bs

allocated-le :
    (cell : ℕ → Header) (p a : ℕ) (bs : List Block) (e : ℕ)
    → Chain cell p a bs e
    → a + 12 * length bs + allocated bs ≤ e
unfolding allocated
allocated-le cell p a [] e k = omega arith
allocated-le cell p a (b ∷ bs) e k =
    ground (arith, allocated-le cell (cell a).next (a + 12 + b.size) bs e k.3)

module _ (h : Heap) (bs : List Block) (v : IsValid h bs) where
  pub in_range : h.heap_start + 12 * length bs + allocated bs ≤ h.heap_end
  in_range = allocated-le h.cell h.heap_start h.heap_start bs h.heap_end v.chain

  pub enough : length bs < fuel h
  enough = omega (arith, in_range, v.high, v.limit)

  pub find_lem :
      (size : ℕ)
      → find_free_block (fuel h) h.cell h.first_block size ≡ some (find_fit size h.heap_start bs)
  find_lem size = rw v.first (
      find_free_block_lem (fuel h) h.cell h.heap_start h.heap_start bs h.heap_end size enough
        (omega (arith, v.low)) v.chain)

  module _ (size : ℕ) (found : find_fit size h.heap_start bs ≢ 0) where
    top : h.heap_end < u32_mod
    top = omega (arith, v.high, v.limit)

    taken_valid :
        Chain
          (taken h.cell (find_fit size h.heap_start bs) size)
          h.heap_start
          h.heap_start
          (take_fit size bs)
          h.heap_end
    taken_valid =
        taken-Chain h.cell h.heap_start h.heap_start bs h.heap_end size v.low top found v.chain

    pub take_block-IsValid :
        IsValid (take_block h (find_fit size h.heap_start bs) size) (take_fit size bs)
    unfolding take_block
    take_block-IsValid = record {
      chain = taken_valid;
      first = v.first;
      low = v.low;
      high = v.high;
      limit = v.limit;
      counted = omega (
        arith,
        v.counted,
        allocated-take_fit size h.heap_start bs found,
        split_block-size h.cell h.heap_start h.heap_start bs h.heap_end size v.low top v.chain
            found,
        allocated-le (taken h.cell (find_fit size h.heap_start bs) size) h.heap_start h.heap_start
            (take_fit size bs) h.heap_end taken_valid,
        top,
      );
    }
