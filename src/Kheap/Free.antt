-- ===== src/Kheap/Free.antt =====
-- kernel/kheap.c: `kfree` on a well formed heap.
use tuple_os.Common.{
  ℕ, ◌+◌, ◌<◌, ◌≡◌, refl, sym, ◌∙◌, arith, List, [], ◌∷◌, some, u32_mod, sub32, length,
}
use mathlib.Core.Path.{subst}
use tuple_os.Kheap.{Header, Heap, fuel, merge_free_blocks, kfree}
use tuple_os.Kheap.Blocks.{Block, Chain, live, allocated}
use tuple_os.Kheap.Live.{Insert}
use tuple_os.Kheap.Coalesce.{
  coalesce_all, release, Held, Held-le, live-coalesce, live-release, allocated-coalesce,
  allocated-release,
}
use tuple_os.Kheap.Merge.{Merged, merge_free_blocks-Merged, freed, freed_Chain}
use tuple_os.Kheap.Correct.{IsValid, enough, in_range}

length-release : (p a : ℕ) (bs : List Block) → length (release p a bs) ≡ length bs
unfolding release
length-release p a [] = refl
length-release p a (b ∷ bs) = ground (arith, length-release p (a + 12 + b.size) bs)

live-coalesce_all : (a : ℕ) (bs : List Block) → live a (coalesce_all bs) ≡ live a bs
live-coalesce_all a [] = refl
live-coalesce_all a (b ∷ bs) = live-coalesce a b bs

allocated-coalesce_all : (bs : List Block) → allocated (coalesce_all bs) ≡ allocated bs
allocated-coalesce_all [] = refl
allocated-coalesce_all (b ∷ bs) = allocated-coalesce b bs

-- The merge from the first block of a heap whose headers are these blocks.
merge_all :
    (n : ℕ) (cell : ℕ → Header) (a : ℕ) (bs : List Block) (e : ℕ)
    → length bs < n
    → 0 < a
    → e < u32_mod
    → Chain cell a a bs e
    → (cell' : ℕ → Header) × (merge_free_blocks n cell a ≡ some cell')
      × Merged cell a (coalesce_all bs) e cell'
merge_all n cell a [] e h pos top k = absurd (omega (arith, k.0))
merge_all n cell a (b ∷ bs) e h pos top k =
    merge_free_blocks-Merged n cell a b bs e (omega arith) pos top k

-- What `kfree` leaves.
pub record Freed (h : Heap) (bs : List Block) (p size : ℕ) : Type 0 where
  pub after : Heap
  pub runs : kfree h (p + 12) ≡ some after
  pub valid : IsValid after (coalesce_all (release p h.heap_start bs))
  pub start_kept : after.heap_start ≡ h.heap_start
  pub given_back :
      Insert
        (p + 12, size)
        (live h.heap_start (coalesce_all (release p h.heap_start bs)))
        (live h.heap_start bs)
  pub marked : (after.cell p).is_free ≡ 1

-- On a well formed heap, `kfree` of a block that a caller holds ends; it takes that block, and no
-- other, from what callers hold, and leaves the heap well formed, with the blocks merged from the
-- first one on.
pub kfree_lem :
    (h : Heap) (bs : List Block) (p size : ℕ)
    → IsValid h bs
    → p < h.heap_end
    → Held p size h.heap_start bs
    → Freed h bs p size
unfolding kfree
kfree_lem h bs p size v inside held =
    let (used, sized, chain') =
      freed_Chain h.cell h.heap_start p size h.heap_start bs h.heap_end held v.chain in
    let lo = Held-le p size h.heap_start bs held in
    let block : sub32 (p + 12) 12 ≡ p = omega (arith, v.high, v.limit) in
    let (cell', r, m) =
      merge_all (fuel h) (freed h.cell p) h.heap_start (release p h.heap_start bs) h.heap_end
        (omega (arith, length-release p h.heap_start bs, enough h bs v)) (omega (arith, v.low))
        (omega (arith, v.high, v.limit)) chain' in
    record {
      after = record h { cell = cell'; total_allocated = sub32 h.total_allocated size };
      runs = ground (arith, block, used, sized, v.first, r);
      valid = record {
        chain = m.chain;
        first = v.first;
        low = v.low;
        high = v.high;
        limit = v.limit;
        counted = omega (
          arith,
          v.counted,
          allocated-release p size h.heap_start bs held,
          allocated-coalesce_all (release p h.heap_start bs),
          in_range h bs v,
          v.high,
          v.limit,
        );
      };
      start_kept = refl;
      given_back =
          subst (λ l. Insert (p + 12, size) l (live h.heap_start bs))
            (sym (live-coalesce_all h.heap_start (release p h.heap_start bs)))
            (live-release p size h.heap_start bs held);
      marked = m.flags p ∙ ground arith;
    }

already_free :
    (h : Heap) (p : ℕ) → p + 12 < u32_mod → (h.cell p).is_free ≡ 1 → kfree h (p + 12) ≡ some h
unfolding kfree
already_free h p small one =
    let block : sub32 (p + 12) 12 ≡ p = omega arith in ground (arith, block, one)

-- On a well formed heap, `kfree` of a block that a caller holds ends, and a second `kfree` of the
-- same pointer ends and changes nothing.
pub kfree_twice :
    (h : Heap) (bs : List Block) (p size : ℕ)
    → IsValid h bs
    → p < h.heap_end
    → Held p size h.heap_start bs
    → (h' : Heap) × (kfree h (p + 12) ≡ some h') × (kfree h' (p + 12) ≡ some h')
kfree_twice h bs p size v inside held =
    let f = kfree_lem h bs p size v inside held in
    (f.after, f.runs, already_free f.after p (omega (arith, v.high, v.limit)) f.marked)
