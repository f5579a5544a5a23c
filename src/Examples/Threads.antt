-- ===== src/Examples/Threads.antt =====
-- The theorems on kernel/process.c and kernel/scheduler.c at a concrete process table.
use tuple_os.Common.{ℕ, ◌≡◌, ◌<◌, ◌≤◌, refl, arith, some, inr, [], ◌∷◌, update, ◌==◌, if◌then◌else◌}
use tuple_os.Paging
use tuple_os.Vmm
use tuple_os.Process.{
  Kernel, ProcessState, max_processes, zero_process, fake_frame, copy_name, copy_chars, get_by_slot,
  find_slot,
}
use tuple_os.Paging
use tuple_os.Process.Slots.{alloc_lem}
use tuple_os.Process.Pids.{IsValid, alloc-IsValid}
use tuple_os.Scheduler.{
  schedule, context_switch, current_slot, next_slot, can_run, turn, switch_to, promote,
  switch_space,
}
use tuple_os.Scheduler.Rotation.{Chosen, IsRunning, schedule_lem, schedule-IsRunning}
use tuple_os.Scheduler.Fairness.{here, call, distance, waits_bound}
use tuple_os.Scheduler.Switch.{context_switch_back}
use tuple_os.Scheduler.Threads.{Thread}
use tuple_os.Examples.{kernel, blocks, vmm}
use tuple_os.Examples.Heap.{heap-IsValid, heap-HasTables}

kernel-IsValid : IsValid kernel
kernel-IsValid = record { below = λ i a u. ground arith; distinct = λ i j a b u w e. ground arith }

alloc-IsValid_example : IsValid (alloc_lem kernel blocks heap-IsValid (heap-HasTables 0x5000)).after
alloc-IsValid_example =
    alloc-IsValid kernel (alloc_lem kernel blocks heap-IsValid (heap-HasTables 0x5000)).answer
      (alloc_lem kernel blocks heap-IsValid (heap-HasTables 0x5000)).after (omega arith)
      kernel-IsValid (alloc_lem kernel blocks heap-IsValid (heap-HasTables 0x5000)).runs

schedule_lem_example : Chosen kernel 0xc010_4000 0
schedule_lem_example = schedule_lem kernel 0xc010_4000 0 refl refl (omega arith) refl

pub kernel-IsRunning : IsRunning kernel 0
kernel-IsRunning = record {
  enabled = refl;
  current = refl;
  in_table = omega arith;
  running = refl;
  alone = λ i a u. ground arith;
}

schedule-IsRunning_example : (n : ℕ) × IsRunning (schedule kernel 0xc010_4000) n
schedule-IsRunning_example = schedule-IsRunning kernel 0xc010_4000 0 kernel-IsRunning

-- The kernel after a switch from slot 0 to slot 1.
abbrev away : Kernel
away = context_switch kernel 7 0 0xd000_1000

away_esp : away.cpu.esp ≡ 0xd000_1014
unfolding context_switch
away_esp = refl

context_switch_back_example :
    (context_switch away 8 1 (away.table 0).kernel_esp).cpu ≡ record kernel.cpu { eip = 7 }
context_switch_back_example =
    context_switch_back kernel away 7 8 0 1 0xd000_1000 (omega arith) (omega arith) (λ n h. refl)
      refl
      (record {
        room = omega (arith, away_esp);
        top = omega (arith, away_esp);
        below = omega arith;
        apart = inr (omega (arith, away_esp));
      })

-- Slot 3 holds a thread whose stack lies at 0xd0002000.
abbrev newborn : Kernel
newborn = record kernel {
  table = update kernel.table 3 (record zero_process {
    pid = 3;
    state = ProcessState.ready;
    name = b'a' ∷ [];
    kernel_stack = 0xd000_2000;
    kernel_esp = 0xd000_3fe8;
    page_directory = Paging.get_directory (Vmm.machine vmm);
    address_space = 0xc030_0000;
  });
  words = (fake_frame 0xd000_4000 0xc010_2000 0xc010_3000 kernel.words).1;
}

newborn-Thread : Thread kernel 0xc010_2000 0xc010_3000 (b'a' ∷ []) 3 newborn
unfolding fake_frame copy_name copy_chars Paging.get_directory
newborn-Thread = record {
  in_table = omega arith;
  was_unused = refl;
  ready = refl;
  numbered = refl;
  named = refl;
  space = refl;
  directory = refl;
  frame = record { edi = refl; esi = refl; ebx = refl; ebp = refl; eip = refl; esp = refl };
  others = λ i d. ground arith;
}

-- The kernel when the CPU has come to slot 1.
abbrev later : Kernel
later = record kernel {
  current = some 1;
  table = λ i.
      if i == 1
      then record (kernel.table 1) { state = ProcessState.running }
      else if i == 0
      then record (kernel.table 0) { state = ProcessState.ready }
      else kernel.table i;
}

later-IsRunning : IsRunning later 1
later-IsRunning = record {
  enabled = refl;
  current = refl;
  in_table = omega arith;
  running = refl;
  alone = λ i a u. ground arith;
}

later_current : later.current ≡ (schedule kernel 7).current
unfolding schedule current_slot next_slot can_run turn get_by_slot find_slot switch_to promote
    switch_space context_switch
later_current = refl

waits_bound_example : (1 ≤ distance 0 2) × (1 < max_processes)
waits_bound_example =
    waits_bound 2 (omega arith) (omega arith)
      (call 7 kernel-IsRunning refl later_current later-IsRunning (λ e. omega (arith, e)) here)
