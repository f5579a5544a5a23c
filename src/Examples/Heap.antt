-- ===== src/Examples/Heap.antt =====
-- The theorems on kernel/kheap.c at a concrete heap.
use tuple_os.Common.{refl, arith, inl, ℕ}
use tuple_os.Kheap.Blocks.{allocated}
use tuple_os.Kheap.Correct.{IsValid}
use tuple_os.Kheap.Expand.{HasTables}
use tuple_os.Kheap.Free.{Freed, kfree_lem}
use tuple_os.Examples.{heap, blocks, heap_base}

pub heap-IsValid : IsValid heap blocks
unfolding allocated
heap-IsValid = record {
  chain = (refl, refl, refl, (refl, refl, refl, (refl, refl)));
  first = refl;
  low = omega arith;
  high = omega arith;
  limit = omega arith;
  counted = refl;
}

pub heap-HasTables : (size : ℕ) → HasTables heap size
heap-HasTables size a lo hi top = refl

kfree_lem_example : Freed heap blocks heap_base 100
kfree_lem_example =
    kfree_lem heap blocks heap_base 100 heap-IsValid (omega arith) (inl (refl, refl, refl))
