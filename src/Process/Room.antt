-- ===== src/Process/Room.antt =====
-- kernel/process.c: `process_alloc` and `kthread_create` where the table and the heap have room.
use tuple_os.Common.{
  ℕ, ◌+◌, ◌<◌, ◌≡◌, ◌≢◌, refl, sym, ap, ◌∙◌, false, true, arith, Option, some, none, List, page_up,
  page_up_lem, ◌==◌, First,
}
use mathlib.Core.Path.{subst}
use native.Mathlib.Decide.{dec_lt}
use tuple_os.Kheap
use tuple_os.Kheap.{kmalloc_aligned, align8}
use tuple_os.Kheap.Correct
use tuple_os.Kheap.Blocks.{Block}
use tuple_os.Kheap.Fit.{find_fit, find_fit-bounds, find_fit_block, take_fit}
use tuple_os.Kheap.Alloc.{kmalloc_fit}
use tuple_os.Process.{
  Kernel, is_unused, max_processes, kernel_stack_size, find_slot, alloc, fill_slot, give_stack,
  number_slot, adopt_slot,
}
use tuple_os.Process.Slots.{
  find_slot-First, is_used, IsFresh, give_stack-Answered, give_stack_heap, fill_slot-runs, stacked,
  Answered,
}

-- The bytes that `process_alloc` asks the heap for, with the page that the alignment takes.
abbrev pub stack_request : ℕ
stack_request = align8 (kernel_stack_size + 4096)

positive : (a : ℕ) → (a + 12 == 0) ≡ false
positive a = ground arith

-- Where the heap has a block for a stack, `kmalloc_aligned` gives one.
stack_runs :
    (h : Kheap.Heap) (bs : List Block)
    → Correct.IsValid h bs
    → find_fit stack_request h.heap_start bs ≢ 0
    → (stack : ℕ) × (heap' : Kheap.Heap) × (kmalloc_aligned h kernel_stack_size
        ≡ some (stack, heap'))
      × (stack ≢ 0)
      × (stack ≡ page_up (find_fit stack_request h.heap_start bs + 12))
      × Correct.IsValid heap' (take_fit stack_request bs)
      × (heap'.heap_start ≡ h.heap_start)
unfolding kmalloc_aligned
stack_runs h bs v found =
    let x = kmalloc_fit h bs (kernel_stack_size + 4096) v (omega arith) found in
    let block =
      find_fit_block h.cell h.heap_start h.heap_start bs h.heap_end stack_request v.chain found in
    let above = find_fit-bounds stack_request h.heap_start bs found in
    (
      page_up (find_fit stack_request h.heap_start bs + 12),
      x.0,
      rw (x.1, kmalloc_aligned, positive (find_fit stack_request h.heap_start bs)) refl,
      omega (
        arith,
        page_up_lem (find_fit stack_request h.heap_start bs + 12),
        block,
        v.high,
        v.limit,
        v.low,
        above,
      ),
      refl,
      x.2,
      x.3,
    )

-- What `process_alloc` leaves where there is a free slot and a block for a stack.
pub record Made (k : Kernel) (bs : List Block) (slot : ℕ) : Type 0 where
  pub after : Kernel
  pub runs : alloc k ≡ some (some slot, after)
  pub fresh : IsFresh k slot after
  pub heap : Correct.IsValid after.vmm.heap (take_fit stack_request bs)
  pub start_kept : after.vmm.heap.heap_start ≡ k.vmm.heap.heap_start
  pub stack :
      (after.table slot).kernel_stack
      ≡ page_up (find_fit stack_request k.vmm.heap.heap_start bs + 12)
  pub words_kept : after.words ≡ k.words
  pub cpu_kept : after.cpu ≡ k.cpu

stacked_slot :
    (k : Kernel) (slot stack : ℕ) (heap' : Kheap.Heap)
    → stack ≢ 0
    → stacked k slot stack heap' ≡ (some slot, (stacked k slot stack heap').1)
unfolding give_stack
stacked_slot k slot stack heap' some_stack =
    let there : (stack == 0) ≡ false = ground arith in rw there refl

given_stack :
    (k : Kernel) (slot stack : ℕ) (heap' : Kheap.Heap)
    → stack ≢ 0
    → ((stacked k slot stack heap').1.table slot).kernel_stack ≡ stack
unfolding give_stack
given_stack k slot stack heap' some_stack = ground arith

given_words :
    (k : Kernel) (slot stack : ℕ) (heap' : Kheap.Heap)
    → (stacked k slot stack heap').1.words ≡ k.words
unfolding give_stack number_slot adopt_slot
given_words k slot stack heap' = ground arith

given_cpu :
    (k : Kernel) (slot stack : ℕ) (heap' : Kheap.Heap) → (stacked k slot stack heap').1.cpu ≡ k.cpu
unfolding give_stack number_slot adopt_slot
given_cpu k slot stack heap' = ground arith

-- The first unused slot is the one below which every slot is in use.
first_unused :
    (k : Kernel) (slot : ℕ)
    → slot < max_processes
    → is_used k slot ≡ false
    → ((i : ℕ) → i < slot → is_used k i ≡ true)
    → find_slot max_processes 0 (λ i. is_unused (k.table i).state) ≡ some slot
first_unused k slot low free below =
    found (find_slot max_processes 0 (λ i. is_unused (k.table i).state))
      (find_slot-First max_processes 0 max_processes (λ i. is_unused (k.table i).state) refl)
  where
    found :
        (o : Option ℕ) → First (λ i. is_unused (k.table i).state) 0 max_processes o → o ≡ some slot
    found none f = absurd (ground (arith, free, f slot (omega arith) low))
    found (some r) f = elim (dec_lt r slot) [
      | yes less ↦ absurd (ground (arith, below r less, f.2))
      | no more ↦ elim (dec_lt slot r) [
        | yes greater ↦ absurd (ground (arith, free, f.3 slot (omega arith) greater))
        | no same ↦ ap some (omega arith)
      ]
    ]

alloc_at :
    (k : Kernel) (slot : ℕ) (r : Option (Option ℕ × Kernel))
    → find_slot max_processes 0 (λ i. is_unused (k.table i).state) ≡ some slot
    → fill_slot k slot ≡ r
    → alloc k ≡ r
unfolding alloc
alloc_at k slot r e filled = rw (e, alloc) filled

-- Where the slots below `slot` are in use, `slot` is not, and the heap has a block for a stack,
-- `process_alloc` answers `slot`.
pub alloc-Made :
    (k : Kernel) (bs : List Block) (slot : ℕ)
    → Correct.IsValid k.vmm.heap bs
    → find_fit stack_request k.vmm.heap.heap_start bs ≢ 0
    → slot < max_processes
    → is_used k slot ≡ false
    → ((i : ℕ) → i < slot → is_used k i ≡ true)
    → Made k bs slot
alloc-Made k bs slot v room low free below =
    let (stack, heap', runs', some_stack, stack', valid', start') =
      stack_runs k.vmm.heap bs v room in
    let filled = stacked_slot k slot stack heap' some_stack in
    let same = give_stack_heap k slot stack heap' in
    let after' = (stacked k slot stack heap').1 in
    record {
      after = after';
      runs =
          alloc_at k slot (some (some slot, after')) (first_unused k slot low free below)
            (fill_slot-runs k slot stack heap' runs' ∙ ap some filled);
      fresh =
          subst (λ r. Answered k r.0 r.1) filled
            (give_stack-Answered k slot stack heap' low free below);
      heap = subst (λ h. Correct.IsValid h (take_fit stack_request bs)) (sym same) valid';
      start_kept = ap (λ h. h.heap_start) same ∙ start';
      stack = given_stack k slot stack heap' some_stack ∙ stack';
      words_kept = given_words k slot stack heap';
      cpu_kept = given_cpu k slot stack heap';
    }
