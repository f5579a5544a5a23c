-- ===== src/Scheduler.antt =====
-- kernel/scheduler.c, with `context_switch` of boot/context_switch.asm and `kthread_exit`.
pub mod Rotation
pub mod Fairness
pub mod Switch
pub mod Threads
pub mod Start
use tuple_os.Common.{
  ℕ, zero, suc, ◌+◌, ◌%◌, Bool, true, false, Option, none, some, ◌==◌, if◌then◌else◌, add32, sub32,
  update, not,
}
use tuple_os.Vmm.Spaces
use tuple_os.Process
use tuple_os.Process.{
  Kernel, Process, ProcessState, Cpu, is_ready, is_running, is_unused, max_processes, find_slot,
  get_by_slot, push,
}

unfoldable pub init : Kernel → Kernel
init k = record k { scheduler_enabled = true }

-- `call context_switch` with the return address `resume`, the pushes, the switch, the pops and `ret`.
unfoldable pub context_switch : Kernel → ℕ → ℕ → ℕ → Kernel
context_switch k resume old new_esp =
    let c = k.cpu in
    let saved = push (push (push (push (push (c.esp, k.words) resume) c.ebp) c.ebx) c.esi) c.edi in
    let words' = saved.1 in
    record k {
      table = update k.table old (record (k.table old) { kernel_esp = saved.0 });
      words = words';
      cpu = record {
        esp = add32 new_esp 20;
        edi = words' new_esp;
        esi = words' (add32 new_esp 4);
        ebx = words' (add32 new_esp 8);
        ebp = words' (add32 new_esp 12);
        eip = words' (add32 new_esp 16);
      };
    }

-- The slots in the order in which `schedule` tries them.
unfoldable pub turn : ℕ → ℕ → ℕ
turn current_slot i = (current_slot + i) % max_processes

-- `proc && proc->state == PROCESS_READY`
unfoldable pub can_run : Kernel → ℕ → Bool
can_run k slot = elim (get_by_slot k slot) [ none ↦ false | some s ↦ is_ready (k.table s).state ]

-- The slot of the current process, which must be in use.
unfoldable pub current_slot : Kernel → ℕ → Option ℕ
current_slot k current =
    find_slot max_processes 0 (λ i. elim (get_by_slot k i) [ none ↦ false | some s ↦ s == current ])

unfoldable pub next_slot : Kernel → ℕ → Option ℕ
next_slot k from = elim (find_slot max_processes 0 (λ i. can_run k (turn from i))) [
  | none ↦ none
  | some i ↦ some (turn from i)
]

-- The states and the current process once `next` is chosen.
unfoldable pub promote : Kernel → ℕ → ℕ → Kernel
promote k current next =
    let demoted =
      if is_running (k.table current).state
      then record k {
        table = update k.table current (record (k.table current) { state = ProcessState.ready });
      }
      else k in
    record demoted {
      table =
          update demoted.table next (record (demoted.table next) { state = ProcessState.running });
      current = some next;
    }

unfoldable pub switch_space : Kernel → ℕ → ℕ → Kernel
switch_space k current next =
    if (k.table next).page_directory == (k.table current).page_directory
    then k
    else record k { vmm = Spaces.switch_address_space k.vmm (k.table next).address_space }

-- The switch to the slot `next`.
unfoldable pub switch_to : Kernel → ℕ → ℕ → ℕ → Kernel
switch_to k resume current next =
    let ready = switch_space (promote k current next) current next in
    context_switch ready resume current (ready.table next).kernel_esp

-- `resume` is the address in `schedule` behind the call of `context_switch`.
unfoldable pub schedule : Kernel → ℕ → Kernel
schedule k resume =
    if k.scheduler_enabled
    then elim k.current [
      | none ↦ k
      | some current ↦ elim (current_slot k current) [
        | none ↦ k
        | some from ↦ elim (next_slot k from) [
          | none ↦ k
          | some next ↦ switch_to k resume current next
        ]
      ]
    ]
    else k

-- `kthread_exit` up to its endless loop.
unfoldable pub kthread_exit : Kernel → ℕ → Kernel
kthread_exit k resume = elim k.current [
  | none ↦ schedule k resume
  | some current ↦
      schedule
        (record k {
          table = update k.table current (record (k.table current) { state = ProcessState.zombie });
        })
        resume
]
