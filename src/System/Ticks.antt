-- ===== src/System/Ticks.antt =====
-- The first two timer interrupts behind `kernel_main`: the two threads begin.
use tuple_os.Common.{
  ℕ, ◌+◌, ◌-◌, ◌≤◌, ◌<◌, ◌≡◌, sym, ap, ◌∙◌, true, false, arith, Option, some, none, First, add32,
  ◌%◌, inl,
}
use native.Mathlib.Decide.{ℕ_discrete}
use mathlib.Core.Path.{subst}
use mathlib.Core.Bool.{false≢true}
use tuple_os.Process.{Kernel, ProcessState, is_ready, max_processes, kernel_stack_size}
use tuple_os.Scheduler.{schedule, switch_to, switch_space, promote}
use tuple_os.Scheduler.Rotation.{IsRunning, schedule_lem, ready_after, switch_to-IsRunning}
use tuple_os.Scheduler.Switch.{Frame, IsApart, context_switch-Frame}
use tuple_os.Scheduler.Threads.{fresh_cpu}
use tuple_os.System.{Loaded}
use tuple_os.System.Threads.{stack_a, stack_b}
use tuple_os.System.Booted.{Booted, IsNew}

-- Before the switch itself the choice of the next process leaves these.
chosen_kept :
    (k : Kernel) (c n : ℕ)
    → let k' = switch_space (promote k c n) c n in
      (k'.cpu ≡ k.cpu) × (k'.words ≡ k.words) × ((k'.table n).kernel_esp ≡ (k.table n).kernel_esp)
unfolding switch_space promote
chosen_kept k c n = (ground arith, ground arith, ground arith)

-- A switch to a thread that has not run enters its trampoline with its function in EBX.
pub switch_to-IsNew :
    (k : Kernel) (resume c n pid stack trampoline entry : ℕ)
    → IsNew k n pid stack trampoline entry
    → IsApart k.cpu.esp (stack + kernel_stack_size - 24)
    → (switch_to k resume c n).cpu ≡ fresh_cpu (add32 stack kernel_stack_size) trampoline entry
unfolding switch_to
switch_to-IsNew k resume c n pid stack trampoline entry new apart =
    let k' = switch_space (promote k c n) c n in
    let (cpu, words, esp) = chosen_kept k c n in
    let at_frame : (k'.table n).kernel_esp ≡ stack + kernel_stack_size - 24 = esp ∙ new.saved in
    context_switch-Frame k' resume c (k'.table n).kernel_esp
      (fresh_cpu (add32 stack kernel_stack_size) trampoline entry)
      (subst (λ t. IsApart k'.cpu.esp t) (sym at_frame)
        (subst (λ u. IsApart u.esp (stack + kernel_stack_size - 24)) (sym cpu) apart))
      (subst (λ t. Frame k'.words t (fresh_cpu (add32 stack kernel_stack_size) trampoline entry))
        (sym at_frame)
        (subst
          (λ w.
            Frame w (stack + kernel_stack_size - 24)
              (fresh_cpu (add32 stack kernel_stack_size) trampoline entry))
          (sym words) new.frame))

-- The slot behind the current one is READY, and the current one is RUNNING: it is the first of the rotation.
next_is :
    (k : Kernel) (c : ℕ) (o : Option ℕ)
    → c + 1 < max_processes
    → (k.table c).state ≡ ProcessState.running
    → (k.table (c + 1)).state ≡ ProcessState.ready
    → First (ready_after k c) 0 max_processes o
    → o ≡ some 1
next_is k c o low running ready f = found o f
  where
    here : ready_after k c 0 ≡ false
    here = ap (λ i. is_ready (k.table i).state) (omega arith) ∙ ap is_ready running

    there : ready_after k c 1 ≡ true
    there = ap (λ i. is_ready (k.table i).state) (omega arith) ∙ ap is_ready ready

    found : (r : Option ℕ) → First (ready_after k c) 0 max_processes r → r ≡ some 1
    found none g = absurd (false≢true (sym (g 1 (omega arith) (omega arith)) ∙ there))
    found (some r) g = elim (ℕ_discrete r 0) [
      | yes z ↦ absurd (false≢true (sym here ∙ ap (ready_after k c) (sym z) ∙ g.2))
      | no n ↦ elim (ℕ_discrete r 1) [
        | yes one ↦ ap some one
        | no more ↦ absurd (false≢true (sym (g.3 1 (omega arith) (omega arith)) ∙ there))
      ]
    ]

-- A timer tick of a process whose next slot is READY switches to that slot.
tick_next :
    (k : Kernel) (resume c : ℕ)
    → IsRunning k c
    → c + 1 < max_processes
    → (k.table (c + 1)).state ≡ ProcessState.ready
    → schedule k resume ≡ switch_to k resume c ((c + 1) % max_processes)
tick_next k resume c r low ready =
    let x = schedule_lem k resume c r.enabled r.current r.in_table (ground (arith, r.running)) in
    let one = next_is k c x.steps low r.running ready x.first in
    x.runs
    ∙ ap (λ o. elim o [ none ↦ k | some i ↦ switch_to k resume c ((c + i) % max_processes) ]) one

switched_cpu :
    (k : Kernel) (resume c pid stack trampoline entry : ℕ)
    → IsRunning k c
    → c + 1 < max_processes
    → IsNew k (c + 1) pid stack trampoline entry
    → IsApart k.cpu.esp (stack + kernel_stack_size - 24)
    → IsRunning (schedule k resume) (c + 1)
      × ((schedule k resume).cpu ≡ fresh_cpu (add32 stack kernel_stack_size) trampoline entry)
switched_cpu k resume c pid stack trampoline entry r low new apart =
    let next : (c + 1) % max_processes ≡ c + 1 = omega arith in
    let runs : schedule k resume ≡ switch_to k resume c (c + 1) =
      tick_next k resume c r low new.ready ∙ ap (switch_to k resume c) next in
    (
      subst (λ k'. IsRunning k' (c + 1)) (sym runs) (switch_to-IsRunning k resume c (c + 1) r low),
      ap (λ k'. k'.cpu) runs
          ∙ switch_to-IsNew k resume c (c + 1) pid stack trampoline entry new apart,
    )

-- Behind `kernel_main`, with the boot stack below the heap, the first call of `schedule` makes the first
-- thread the one RUNNING process and enters the trampoline with that thread's function in EBX, at the top of
-- the thread's own stack.
pub first_tick :
    (a : Loaded) (k : Kernel) (resume : ℕ)
    → Booted a k
    → 20 ≤ k.cpu.esp
    → k.cpu.esp ≤ 0xc040_0000
    → IsRunning (schedule k resume) 1
      × ((schedule k resume).cpu ≡ fresh_cpu (stack_a + 8192) a.trampoline a.thread_a)
first_tick a k resume b room below =
    switched_cpu k resume 0 1 stack_a a.trampoline a.thread_a b.running (omega arith) b.new_a
      (record { room = room; top = omega arith; below = omega arith; apart = inl (omega arith) })

-- A kernel in which thread `a` has run since: in its own stack, and on no other process.
pub record RunsA (a : Loaded) (k : Kernel) : Type 0 where
  pub running : IsRunning k 1
  pub new_b : IsNew k 2 2 stack_b a.trampoline a.thread_b
  pub low : stack_a + 20 ≤ k.cpu.esp
  pub high : k.cpu.esp ≤ stack_a + 8192

-- While the first thread runs in its own stack and the second has not run, the next call of `schedule`
-- makes the second thread the one RUNNING process and enters its trampoline.
pub second_tick :
    (a : Loaded) (k : Kernel) (resume : ℕ)
    → RunsA a k
    → IsRunning (schedule k resume) 2
      × ((schedule k resume).cpu ≡ fresh_cpu (stack_b + 8192) a.trampoline a.thread_b)
second_tick a k resume s =
    switched_cpu k resume 1 2 stack_b a.trampoline a.thread_b s.running (omega arith) s.new_b
      (record {
        room = omega (arith, s.low);
        top = omega (arith, s.high);
        below = omega arith;
        apart = inl (omega (arith, s.high));
      })
