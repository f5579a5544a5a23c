-- ===== src/Scheduler/Start.antt =====
-- `kthread_create` of kernel/process.c where the table and the heap have room: the thread and its frame.
use tuple_os.Common.{
  ℕ, ◌+◌, ◌-◌, ◌≤◌, ◌<◌, ◌≡◌, ◌⊎◌, refl, ap, ◌∙◌, arith, some, List, page_up, add32, u32_mod,
}
use tuple_os.Kheap.Correct
use tuple_os.Kheap.Blocks.{Block}
use tuple_os.Kheap.Fit.{find_fit, take_fit}
use tuple_os.Process.{Kernel, fake_frame, kthread_create, alloc, kernel_stack_size}
use tuple_os.Process.Room.{Made, stack_request}
use tuple_os.Scheduler.Threads.{Thread, spawned, spawned-Thread}

-- The stack that a thread gets from a heap with these blocks.
abbrev pub stack_of : ℕ → List Block → ℕ
stack_of start bs = page_up (find_fit stack_request start bs + 12)

-- What `kthread_create` leaves where there is room.
pub record Started (k : Kernel) (bs : List Block) (slot trampoline entry : ℕ) (name : List ℕ)
    : Type 0 where
  pub after : Kernel
  pub runs : kthread_create k trampoline entry name ≡ some (some slot, after)
  pub thread : Thread k trampoline entry name slot after
  pub heap : Correct.IsValid after.vmm.heap (take_fit stack_request bs)
  pub start_kept : after.vmm.heap.heap_start ≡ k.vmm.heap.heap_start
  pub current_kept : after.current ≡ k.current
  pub counted : after.next_pid ≡ add32 k.next_pid 1
  pub stack : (after.table slot).kernel_stack ≡ stack_of k.vmm.heap.heap_start bs
  pub saved :
      (after.table slot).kernel_esp ≡ stack_of k.vmm.heap.heap_start bs + kernel_stack_size - 24
  pub cpu_kept : after.cpu ≡ k.cpu
  pub words_kept :
      (a : ℕ)
      → (a < stack_of k.vmm.heap.heap_start bs)
        ⊎ (stack_of k.vmm.heap.heap_start bs + kernel_stack_size ≤ a)
      → after.words a ≡ k.words a

created :
    (k k' : Kernel) (slot trampoline entry : ℕ) (name : List ℕ)
    → alloc k ≡ some (some slot, k')
    → kthread_create k trampoline entry name
      ≡ some (some slot, spawned k' trampoline entry name slot)
unfolding kthread_create
created k k' slot trampoline entry name e = rw (e, kthread_create) refl

frame_words :
    (stack trampoline entry a : ℕ) (words : ℕ → ℕ)
    → stack + kernel_stack_size < u32_mod
    → (a < stack) ⊎ (stack + kernel_stack_size ≤ a)
    → (fake_frame (add32 stack kernel_stack_size) trampoline entry words).1 a ≡ words a
unfolding fake_frame
frame_words stack trampoline entry a words small out = ground arith

frame_top :
    (stack trampoline entry : ℕ) (words : ℕ → ℕ)
    → stack + kernel_stack_size < u32_mod
    → (fake_frame (add32 stack kernel_stack_size) trampoline entry words).0
      ≡ stack + kernel_stack_size - 24
unfolding fake_frame
frame_top stack trampoline entry words small = omega arith

spawned_esp :
    (k : Kernel) (slot trampoline entry : ℕ) (name : List ℕ)
    → ((spawned k trampoline entry name slot).table slot).kernel_esp
      ≡ (fake_frame
          (add32 (k.table slot).kernel_stack kernel_stack_size)
          trampoline
          entry
          k.words).0
spawned_esp k slot trampoline entry name = ground arith

spawned_stack :
    (k : Kernel) (slot trampoline entry : ℕ) (name : List ℕ)
    → ((spawned k trampoline entry name slot).table slot).kernel_stack ≡ (k.table slot).kernel_stack
spawned_stack k slot trampoline entry name = ground arith

-- Where `process_alloc` answers a slot, `kthread_create` makes its thread there, and writes to the stack of
-- that thread only.
pub kthread_create-Started :
    (k : Kernel) (bs : List Block) (slot trampoline entry : ℕ) (name : List ℕ)
    → stack_of k.vmm.heap.heap_start bs + kernel_stack_size < u32_mod
    → Made k bs slot
    → Started k bs slot trampoline entry name
kthread_create-Started k bs slot trampoline entry name small m =
    let k' = m.after in
    let fits : (k'.table slot).kernel_stack + kernel_stack_size < u32_mod =
      omega (arith, m.stack, small) in
    record {
      after = spawned k' trampoline entry name slot;
      runs = created k k' slot trampoline entry name m.runs;
      thread = spawned-Thread k trampoline entry name slot k' m.fresh;
      heap = m.heap;
      start_kept = m.start_kept;
      current_kept = m.fresh.current_kept;
      counted = m.fresh.counted;
      stack = spawned_stack k' slot trampoline entry name ∙ m.stack;
      saved =
          spawned_esp k' slot trampoline entry name
          ∙ frame_top (k'.table slot).kernel_stack trampoline entry k'.words fits
          ∙ ap (λ s. s + kernel_stack_size - 24) m.stack;
      cpu_kept = m.cpu_kept;
      words_kept = λ a out.
          frame_words (k'.table slot).kernel_stack trampoline entry a k'.words fits
            (ground (arith, out, m.stack))
          ∙ ap (λ w. w a) m.words_kept;
    }
