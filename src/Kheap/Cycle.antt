-- ===== src/Kheap/Cycle.antt =====
-- kernel/kheap.c: a `kmalloc` and the `kfree` of its pointer.
use tuple_os.Common.{ℕ, ◌+◌, ◌≤◌, ◌≡◌, List, [], ◌∷◌, some}
use tuple_os.Kheap.{Heap, kfree}
use tuple_os.Kheap.Blocks.{Block, live}
use tuple_os.Kheap.Correct.{IsValid}

-- The pointers go up from `lo` on.
abbrev Increasing : ℕ → List (ℕ × ℕ) → Type 0
Increasing lo [] = Unit {0}
Increasing lo (y ∷ ys) = (lo ≤ y.0) × Increasing (y.0 + 1) ys

-- What a pointer that `kmalloc` gave and that is freed again leaves: the callers hold what they held before.
pub record Returned (h : Heap) (bs : List Block) (ptr : ℕ) (h' : Heap) : Type 0 where
  pub after : Heap
  pub blocks : List Block
  pub runs : kfree h' ptr ≡ some after
  pub valid : IsValid after blocks
  pub held : live h.heap_start blocks ≡ live h.heap_start bs
