-- ===== src/System/Booted.antt =====
-- What the start of the threads in `kernel_main` leaves of the process table and the scheduler.
use tuple_os.Common.{
  ℕ, ◌+◌, ◌-◌, ◌≤◌, ◌<◌, ◌≡◌, refl, sym, ap, ◌∙◌, true, arith, some, List, inl, inr, u32_mod, add32,
}
use mathlib.Core.Path.{subst}
use mathlib.Core.Bool.{false≢true}
use tuple_os.Kheap.{heap_start_addr}
use tuple_os.Kheap.Correct
use tuple_os.Kheap.Blocks.{Block}
use tuple_os.Kheap.Init.{first_blocks}
use tuple_os.Process
use tuple_os.Process.{
  Kernel, Process, Cpu, ProcessState, zero_process, max_processes, is_running, is_unused,
  kernel_stack_size,
}
use tuple_os.Process.Slots.{is_used}
use tuple_os.Process.Pids
use tuple_os.Scheduler
use tuple_os.Scheduler.Rotation.{IsRunning}
use tuple_os.Scheduler.Switch.{Frame}
use tuple_os.Scheduler.Threads.{fresh_cpu}
use tuple_os.Scheduler.Start.{Started, stack_of}
use tuple_os.System.Threads.{
  blocks_a, blocks_b, stack_a, stack_b, stack_of_a, stack_of_b, init_slot, init_kernel, used,
  started_a, started_b, start_a, threads_run, slot_other, slot_1, slot_cases,
}
use tuple_os.System.{Loaded, start_threads, thread_a_name, thread_b_name}

-- A thread that has not run: READY in its slot under its PID, with the frame that enters the trampoline.
pub record IsNew (k : Kernel) (slot pid stack trampoline entry : ℕ) : Type 0 where
  pub ready : (k.table slot).state ≡ ProcessState.ready
  pub numbered : (k.table slot).pid ≡ pid
  pub saved : (k.table slot).kernel_esp ≡ stack + kernel_stack_size - 24
  pub frame :
      Frame k.words
        (stack + kernel_stack_size - 24)
        (fresh_cpu (add32 stack kernel_stack_size) trampoline entry)

-- What `kernel_main` leaves of the process table and the scheduler: the kernel itself is RUNNING under PID 0
-- in slot 0, the two threads are READY in the slots 1 and 2, and the other slots are unused.
pub record Booted (a : Loaded) (k' : Kernel) : Type 0 where
  pub running : IsRunning k' 0
  pub kernel_pid : (k'.table 0).pid ≡ 0
  pub new_a : IsNew k' 1 1 stack_a a.trampoline a.thread_a
  pub new_b : IsNew k' 2 2 stack_b a.trampoline a.thread_b
  pub idle : (i : ℕ) → 2 < i → i < max_processes → k'.table i ≡ zero_process
  pub counted : k'.next_pid ≡ 3
  pub pids : Pids.IsValid k'
  pub heap : Correct.IsValid k'.vmm.heap blocks_b

Frame-frame :
    (w w' : ℕ → ℕ) (sp : ℕ) (c : Cpu)
    → sp + 24 < u32_mod
    → ((x : ℕ) → sp ≤ x → x < sp + 24 → w' x ≡ w x)
    → Frame w sp c
    → Frame w' sp c
Frame-frame w w' sp c small same f = record {
  edi = same sp (omega arith) (omega arith) ∙ f.edi;
  esi = same (add32 sp 4) (omega arith) (omega arith) ∙ f.esi;
  ebx = same (add32 sp 8) (omega arith) (omega arith) ∙ f.ebx;
  ebp = same (add32 sp 12) (omega arith) (omega arith) ∙ f.ebp;
  eip = same (add32 sp 16) (omega arith) (omega arith) ∙ f.eip;
  esp = f.esp;
}

-- The thread of `kthread_create`.
Started-IsNew :
    (k : Kernel) (bs : List Block) (slot pid stack trampoline entry : ℕ) (name : List ℕ)
    (s : Started k bs slot trampoline entry name)
    → stack_of k.vmm.heap.heap_start bs ≡ stack
    → k.next_pid ≡ pid
    → IsNew s.after slot pid stack trampoline entry
Started-IsNew k bs slot pid stack trampoline entry name s at_stack next = record {
  ready = s.thread.ready;
  numbered = s.thread.numbered ∙ next;
  saved = saved';
  frame =
      subst
        (λ t.
          Frame s.after.words (t + kernel_stack_size - 24)
            (fresh_cpu (add32 t kernel_stack_size) trampoline entry))
        at_stack
        (subst
          (λ x. Frame s.after.words x (
            fresh_cpu (add32 (stack_of k.vmm.heap.heap_start bs) kernel_stack_size) trampoline
              entry))
          s.saved
          (subst
            (λ t.
              Frame s.after.words (s.after.table slot).kernel_esp
                (fresh_cpu (add32 t kernel_stack_size) trampoline entry))
            s.stack s.thread.frame));
}
  where
    saved' : (s.after.table slot).kernel_esp ≡ stack + kernel_stack_size - 24
    saved' = s.saved ∙ ap (λ t. t + kernel_stack_size - 24) at_stack

module _ (a : Loaded) (k : Kernel) (v : Correct.IsValid k.vmm.heap first_blocks)
    (e : k.vmm.heap.heap_start ≡ heap_start_addr) where
  abbrev both_started : Kernel
  both_started = (started_b a k v e).after

  next_a : (started_a a k v e).after.next_pid ≡ 2
  next_a = (started_a a k v e).counted ∙ ap (λ n. add32 n 1) (init_kernel k).3

  thread_1 : IsNew (started_a a k v e).after 1 1 stack_a a.trampoline a.thread_a
  thread_1 =
      Started-IsNew (Process.init k) first_blocks 1 1 stack_a a.trampoline a.thread_a thread_a_name
        (started_a a k v e)
        (ap (λ m. stack_of m.heap.heap_start first_blocks) (init_kernel k).5
          ∙ ap (λ s. stack_of s first_blocks) e
          ∙ stack_of_a)
        (init_kernel k).3

  thread_2 : IsNew both_started 2 2 stack_b a.trampoline a.thread_b
  thread_2 =
      Started-IsNew (started_a a k v e).after blocks_a 2 2 stack_b a.trampoline a.thread_b
        thread_b_name (started_b a k v e)
        (ap (λ s. stack_of s blocks_a) (start_a a k v e) ∙ stack_of_b) next_a

  -- The second thread's stack is apart from the frame of the first.
  frame_kept :
      (x : ℕ)
      → stack_a + kernel_stack_size - 24 ≤ x
      → x < stack_a + kernel_stack_size - 24 + 24
      → both_started.words x ≡ (started_a a k v e).after.words x
  frame_kept x lo hi =
      (started_b a k v e).words_kept x
        (inl (omega (arith, stack_of_b, ap (λ s. stack_of s blocks_a) (start_a a k v e), hi)))

  thread_1_kept : IsNew both_started 1 1 stack_a a.trampoline a.thread_a
  thread_1_kept = record {
    ready = ap (λ p. p.state) (slot_1 a k v e) ∙ thread_1.ready;
    numbered = ap (λ p. p.pid) (slot_1 a k v e) ∙ thread_1.numbered;
    saved = ap (λ p. p.kernel_esp) (slot_1 a k v e) ∙ thread_1.saved;
    frame =
        Frame-frame (started_a a k v e).after.words both_started.words _ _ (omega arith) frame_kept
          thread_1.frame;
  }

  -- A PCB in use has its slot for its PID, and is one of the first three.
  pid_lem :
      (i : ℕ)
      → i < max_processes
      → is_used both_started i ≡ true
      → ((both_started.table i).pid ≡ i) × (i < 3)
  pid_lem i low u = elim (slot_cases a k v e i low) [
    | inl (z, same) ↦ (
      ap (λ j. (both_started.table j).pid) z ∙ ap (λ p. p.pid) same ∙ (init_kernel k).1 ∙ sym z,
      omega arith,
    )
    | inr (inl one) ↦
        (ap (λ j. (both_started.table j).pid) one ∙ thread_1_kept.numbered ∙ sym one, omega arith)
    | inr (inr (inl two)) ↦
        (ap (λ j. (both_started.table j).pid) two ∙ thread_2.numbered ∙ sym two, omega arith)
    | inr (inr (inr free)) ↦ absurd (false≢true (sym (ap used free) ∙ u))
  ]

  next_b : both_started.next_pid ≡ 3
  next_b = (started_b a k v e).counted ∙ ap (λ n. add32 n 1) next_a

  alone' : (i : ℕ) → i < max_processes → is_running (both_started.table i).state ≡ true → i ≡ 0
  alone' i low r = elim (slot_cases a k v e i low) [
    | inl (z, same) ↦ z
    | inr (inl one) ↦ absurd (
        false≢true (
          sym (
            ap (λ j. is_running (both_started.table j).state) one
            ∙ ap is_running thread_1_kept.ready)
          ∙ r))
    | inr (inr (inl two)) ↦ absurd (
        false≢true (
          sym (ap (λ j. is_running (both_started.table j).state) two ∙ ap is_running thread_2.ready)
          ∙ r))
    | inr (inr (inr free)) ↦ absurd (false≢true (sym (ap (λ p. is_running p.state) free) ∙ r))
  ]

  slot_0_kept : both_started.table 0 ≡ (Process.init k).table 0
  slot_0_kept = slot_other a k v e 0 (omega arith) (omega arith)

  -- On the heap of `kheap_init`, `process_init`, the two threads and `scheduler_init` end, and leave the kernel
  -- itself RUNNING alone under PID 0 in slot 0, and two READY threads that have not run, under the PIDs 1 and 2.
  pub start_threads-Booted :
      (k' : Kernel) × (start_threads a k ≡ some k') × Booted a k' × (k'.cpu ≡ k.cpu)
  unfolding Scheduler.init
  start_threads-Booted = (
    Scheduler.init both_started,
    threads_run a k v e,
    record {
      running = record {
        enabled = refl;
        current =
            (started_b a k v e).current_kept ∙ (started_a a k v e).current_kept ∙ (init_kernel k).2;
        in_table = omega arith;
        running = ap (λ p. p.state) slot_0_kept ∙ (init_kernel k).0;
        alone = alone';
      };
      kernel_pid = ap (λ p. p.pid) slot_0_kept ∙ (init_kernel k).1;
      new_a = record {
        ready = thread_1_kept.ready;
        numbered = thread_1_kept.numbered;
        saved = thread_1_kept.saved;
        frame = thread_1_kept.frame;
      };
      new_b = record {
        ready = thread_2.ready;
        numbered = thread_2.numbered;
        saved = thread_2.saved;
        frame = thread_2.frame;
      };
      idle = λ i above low.
          slot_other a k v e i (omega arith) (omega arith) ∙ init_slot k i low (omega arith);
      counted = next_b;
      pids = record {
        below = λ i low u. let p = pid_lem i low u in omega (arith, p, next_b);
        distinct = λ i j x y u w same. sym (pid_lem i x u).0 ∙ same ∙ (pid_lem j y w).0;
      };
      heap = (started_b a k v e).heap;
    },
    (started_b a k v e).cpu_kept ∙ (started_a a k v e).cpu_kept ∙ (init_kernel k).4,
  )
