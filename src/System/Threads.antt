-- ===== src/System/Threads.antt =====
-- The process table and the scheduler behind `process_init`, the two calls of `kthread_create` and
-- `scheduler_init` of `kernel_main`.
use tuple_os.Common
use tuple_os.Common.{
  not, Bool, ℕ, zero, suc, ◌+◌, ◌-◌, ◌≤◌, ◌<◌, ◌≡◌, ◌≢◌, refl, sym, ap, ◌∙◌, true, false, arith,
  Option, some, none, List, [], ◌∷◌, inl, inr, ◌⊎◌, update, ltb, ◌==◌, if◌then◌else◌, u32_mod,
  add32,
}
use native.Mathlib.Decide.{ℕ_discrete}
use mathlib.Core.Path.{subst}
use tuple_os.Kheap.{heap_start_addr}
use tuple_os.Kheap.Correct
use tuple_os.Kheap.Blocks.{Block}
use tuple_os.Kheap.Fit.{find_fit, take_fit}
use tuple_os.Kheap.Init.{first_blocks}
use tuple_os.Process
use tuple_os.Process.{
  Kernel, Process, Cpu, ProcessState, zero_process, max_processes, is_running, is_unused,
  kernel_stack_size,
}
use tuple_os.Process.Slots.{is_used}
use tuple_os.Process.Room.{Made, alloc-Made, stack_request}
use tuple_os.Scheduler
use tuple_os.Scheduler.Start.{Started, stack_of, kthread_create-Started}
use tuple_os.System.{Loaded, start_threads, thread_a_name, thread_b_name}

-- The blocks of the heap once it has given the stack of the first thread, and of both.
abbrev pub blocks_a : List Block
blocks_a = take_fit stack_request first_blocks

abbrev pub blocks_b : List Block
blocks_b = take_fit stack_request blocks_a

abbrev pub stack_a : ℕ
stack_a = 0xc040_1000

abbrev pub stack_b : ℕ
stack_b = 0xc040_4000

room_a : find_fit stack_request heap_start_addr first_blocks ≢ 0
unfolding find_fit
room_a e = absurd (omega (arith, e))

room_b : find_fit stack_request heap_start_addr blocks_a ≢ 0
unfolding find_fit take_fit
room_b e = absurd (omega (arith, e))

pub stack_of_a : stack_of heap_start_addr first_blocks ≡ stack_a
unfolding find_fit Common.page_up
stack_of_a = refl

pub stack_of_b : stack_of heap_start_addr blocks_a ≡ stack_b
unfolding find_fit take_fit Common.page_up
stack_of_b = refl

pub init_slot :
    (k : Kernel) (i : ℕ) → i < max_processes → i ≢ 0 → (Process.init k).table i ≡ zero_process
unfolding Process.init
init_slot k i low n = ground arith

pub init_kernel :
    (k : Kernel)
    → (((Process.init k).table 0).state ≡ ProcessState.running)
      × (((Process.init k).table 0).pid ≡ 0)
      × ((Process.init k).current ≡ some 0)
      × ((Process.init k).next_pid ≡ 1)
      × ((Process.init k).cpu ≡ k.cpu)
      × ((Process.init k).vmm ≡ k.vmm)
unfolding Process.init
init_kernel k = (refl, refl, refl, refl, refl, refl)

alloc_a :
    (k : Kernel)
    → Correct.IsValid k.vmm.heap first_blocks
    → k.vmm.heap.heap_start ≡ heap_start_addr
    → Made (Process.init k) first_blocks 1
unfolding Process.init
alloc_a k v e =
    alloc-Made (Process.init k) first_blocks 1 v
      (λ z. room_a (ap (λ s. find_fit stack_request s first_blocks) (sym e) ∙ z)) (omega arith) refl
      (λ i low. let zero' : i ≡ 0 = omega arith in ap (is_used (Process.init k)) zero')

abbrev pub in_use : ProcessState → Bool
in_use s = not (is_unused s)

abbrev pub used : Process → Bool
used p = in_use p.state

-- Kernels whose heap begins where `kheap_init` puts it.
module _ (a : Loaded) (k : Kernel) (v : Correct.IsValid k.vmm.heap first_blocks)
    (e : k.vmm.heap.heap_start ≡ heap_start_addr) where
  pub started_a : Started (Process.init k) first_blocks 1 a.trampoline a.thread_a thread_a_name
  unfolding Process.init
  started_a =
      kthread_create-Started (Process.init k) first_blocks 1 a.trampoline a.thread_a thread_a_name
        (subst (λ s. stack_of s first_blocks + kernel_stack_size < u32_mod) (sym e)
          (omega (arith, stack_of_a)))
        (alloc_a k v e)

  pub start_a : started_a.after.vmm.heap.heap_start ≡ heap_start_addr
  start_a = started_a.start_kept ∙ ap (λ m. m.heap.heap_start) (init_kernel k).5 ∙ e

  slot_0 : started_a.after.table 0 ≡ (Process.init k).table 0
  slot_0 = started_a.thread.others 0 (omega arith)

  alloc_b : Made started_a.after blocks_a 2
  alloc_b =
      alloc-Made started_a.after blocks_a 2 started_a.heap
        (λ z. room_b (ap (λ s. find_fit stack_request s blocks_a) (sym start_a) ∙ z)) (omega arith)
        (ap used
          (started_a.thread.others 2 (omega arith) ∙ init_slot k 2 (omega arith) (omega arith)))
        below
    where
      below : (i : ℕ) → i < 2 → is_used started_a.after i ≡ true
      below i low = elim (ℕ_discrete i 0) [
        | yes z ↦ ap (is_used started_a.after) z ∙ ap used slot_0 ∙ ap in_use (init_kernel k).0
        | no n ↦
            let one : i ≡ 1 = omega arith in
            ap (is_used started_a.after) one ∙ ap in_use started_a.thread.ready
      ]

  pub started_b : Started started_a.after blocks_a 2 a.trampoline a.thread_b thread_b_name
  started_b =
      kthread_create-Started started_a.after blocks_a 2 a.trampoline a.thread_b thread_b_name
        (subst (λ s. stack_of s blocks_a + kernel_stack_size < u32_mod) (sym start_a)
          (omega (arith, stack_of_b)))
        alloc_b

  start_b : started_b.after.vmm.heap.heap_start ≡ heap_start_addr
  start_b = started_b.start_kept ∙ start_a

  pub threads_run : start_threads a k ≡ some (Scheduler.init started_b.after)
  unfolding start_threads
  threads_run = rw (started_a.runs, start_threads, started_b.runs) refl

  -- The slots of the table that are not those of the two threads.
  pub slot_other : (i : ℕ) → i ≢ 1 → i ≢ 2 → started_b.after.table i ≡ (Process.init k).table i
  slot_other i one two = started_b.thread.others i two ∙ started_a.thread.others i one

  pub slot_1 : started_b.after.table 1 ≡ started_a.after.table 1
  slot_1 = started_b.thread.others 1 (omega arith)

  -- The state and the PID of every slot.
  pub slot_cases :
      (i : ℕ)
      → i < max_processes
      → ((i ≡ 0) × (started_b.after.table 0 ≡ (Process.init k).table 0))
        ⊎ ((i ≡ 1) ⊎ ((i ≡ 2) ⊎ (started_b.after.table i ≡ zero_process)))
  slot_cases i low = elim (ℕ_discrete i 0) [
    | yes z ↦ inl (z, slot_other 0 (omega arith) (omega arith))
    | no nz ↦ elim (ℕ_discrete i 1) [
      | yes one ↦ inr (inl one)
      | no n1 ↦ elim (ℕ_discrete i 2) [
        | yes two ↦ inr (inr (inl two))
        | no n2 ↦ inr (inr (inr (slot_other i n1 n2 ∙ init_slot k i low nz)))
      ]
    ]
  ]
