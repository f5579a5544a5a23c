-- ===== src/Process.antt =====
-- kernel/process.c and process.h: the process table and kernel threads.
pub mod Slots
pub mod Pids
pub mod Room
use tuple_os.Common.{
  ℕ, zero, suc, ◌+◌, ◌-◌, Bool, true, false, Option, none, some, ltb, leb, ◌==◌, ◌&&◌, ◌||◌, not,
  if◌then◌else◌, add32, sub32, update, List, [], ◌∷◌, replicate,
}
use tuple_os.Paging
use tuple_os.Kheap
use tuple_os.Vmm
use tuple_os.Vmm.Spaces
use tuple_os.Vmm.{Vmm, machine}

-- `process_state_t`
pub data ProcessState : Type 0 where
  unused ready running blocked zombie : ProcessState

abbrev pub is_unused : ProcessState → Bool
is_unused s = elim s [ ProcessState.unused ↦ true | _ ↦ false ]

abbrev pub is_ready : ProcessState → Bool
is_ready s = elim s [ ProcessState.ready ↦ true | _ ↦ false ]

abbrev pub is_running : ProcessState → Bool
is_running s = elim s [ ProcessState.running ↦ true | _ ↦ false ]

-- `process_t`. The name is the characters before its NUL; the seventeen saved registers are in the order
-- of `cpu_registers_t`.
pub record Process : Type 0 where
  pub pid : ℕ
  pub state : ProcessState
  pub name : List ℕ
  pub registers : List ℕ
  pub page_directory : ℕ
  pub address_space : ℕ
  pub kernel_stack : ℕ
  pub kernel_esp : ℕ
  pub priority : ℕ
  pub parent_pid : ℕ
  pub exit_code : ℕ

-- The registers that `context_switch` of boot/context_switch.asm saves and loads.
pub record Cpu : Type 0 where
  pub esp : ℕ
  pub ebp : ℕ
  pub ebx : ℕ
  pub esi : ℕ
  pub edi : ℕ
  pub eip : ℕ

-- The statics of process.c and scheduler.c over the memory managers. A pointer to a PCB is its slot in
-- the table; `words` is the memory of the kernel stacks by address, four bytes a cell.
pub record Kernel : Type 0 where
  pub vmm : Vmm
  pub table : ℕ → Process
  pub next_pid : ℕ
  pub current : Option ℕ
  pub scheduler_enabled : Bool
  pub words : ℕ → ℕ
  pub cpu : Cpu

abbrev pub max_processes : ℕ
max_processes = 64

abbrev pub process_name_len : ℕ
process_name_len = 32

abbrev pub kernel_stack_size : ℕ
kernel_stack_size = 8192

-- A PCB with every byte zero.
abbrev pub zero_process : Process
zero_process = record {
  pid = 0;
  state = ProcessState.unused;
  name = [];
  registers = replicate 17 0;
  page_directory = 0;
  address_space = 0;
  kernel_stack = 0;
  kernel_esp = 0;
  priority = 0;
  parent_pid = 0;
  exit_code = 0;
}

-- The loop of `copy_name`, with room for `n` characters before the NUL.
unfoldable pub copy_chars : ℕ → List ℕ → List ℕ
copy_chars zero src = []
copy_chars (suc n) [] = []
copy_chars (suc n) (c ∷ cs) = if c == 0 then [] else c ∷ copy_chars n cs

unfoldable pub copy_name : List ℕ → ℕ → List ℕ
copy_name src max_len = copy_chars (max_len - 1) src

-- "kernel"
abbrev pub kernel_name : List ℕ
kernel_name = b'k' ∷ b'e' ∷ b'r' ∷ b'n' ∷ b'e' ∷ b'l' ∷ []

-- `zero_memory` over the whole table, and PID 0.
unfoldable pub init : Kernel → Kernel
init k = record k {
  table =
      update (λ slot. if ltb slot max_processes then zero_process else k.table slot) 0
        (record zero_process {
          state = ProcessState.running;
          name = copy_name kernel_name process_name_len;
          page_directory = Paging.get_directory (machine k.vmm);
          address_space = k.vmm.kernel_space;
        });
  next_pid = 1;
  current = some 0;
}

-- The scans of the table, with `n` slots left at slot `i`.
unfoldable pub find_slot : ℕ → ℕ → (ℕ → Bool) → Option ℕ
find_slot zero i test = none
find_slot (suc n) i test = let rest = find_slot n (i + 1) test in if test i then some i else rest

-- `current_process ? current_process->pid : 0`
abbrev pub current_pid : Kernel → ℕ
current_pid k = elim k.current [ none ↦ 0 | some slot ↦ (k.table slot).pid ]

-- `process_alloc` behind its call of `kmalloc_aligned`.
unfoldable pub give_stack : Kernel → ℕ → ℕ → Kheap.Heap → Option ℕ × Kernel
give_stack k slot stack heap' =
    let proc = k.table slot in
    if stack == 0
    then (
      none,
      record k {
        vmm = record k.vmm { heap = heap' };
        table = update k.table slot (record proc { state = ProcessState.unused });
      },
    )
    else (
      some slot,
      record k {
        vmm = record k.vmm { heap = heap' };
        table =
            update k.table slot
              (record proc { kernel_stack = stack; kernel_esp = add32 stack kernel_stack_size });
      },
    )

-- The zeroed PCB in the free slot, with its PID and its state.
unfoldable pub number_slot : Kernel → ℕ → Kernel
number_slot k slot = record k {
  table =
      update k.table slot (record zero_process { pid = k.next_pid; state = ProcessState.ready });
  next_pid = add32 k.next_pid 1;
}

unfoldable pub adopt_slot : Kernel → ℕ → Kernel
adopt_slot k slot = record k {
  table = update k.table slot (record (k.table slot) { parent_pid = current_pid k });
}

-- `process_alloc` on the free slot that it has found; `none` where the heap does not answer.
unfoldable pub fill_slot : Kernel → ℕ → Option (Option ℕ × Kernel)
fill_slot k slot = elim (Kheap.kmalloc_aligned k.vmm.heap kernel_stack_size) [
  | none ↦ none
  | some (stack, heap') ↦ some (give_stack (adopt_slot (number_slot k slot) slot) slot stack heap')
]

unfoldable pub alloc : Kernel → Option (Option ℕ × Kernel)
alloc k = elim (find_slot max_processes 0 (λ i. is_unused (k.table i).state)) [
  | none ↦ some (none, k)
  | some slot ↦ fill_slot k slot
]

-- `process_free` of a PCB that is not NULL; `none` where the heap does not answer.
unfoldable pub free : Kernel → ℕ → Option Kernel
free k slot =
    let proc = k.table slot in
    let unstacked =
      if proc.kernel_stack == 0
      then some k.vmm.heap
      else Kheap.kfree k.vmm.heap proc.kernel_stack in
    if proc.pid == 0 then some k else elim unstacked [
      | none ↦ none
      | some heap' ↦
          elim (if proc.address_space == 0
            then some (record k.vmm { heap = heap' })
            else Spaces.destroy_address_space (record k.vmm { heap = heap' }) proc.address_space) [
              | none ↦ none
              | some vmm' ↦ some (record k { vmm = vmm'; table = update k.table slot zero_process })
            ]
    ]

unfoldable pub get : Kernel → ℕ → Option ℕ
get k pid =
    find_slot max_processes 0 (λ i. not (is_unused (k.table i).state) && ((k.table i).pid == pid))

-- The argument is not negative.
unfoldable pub get_by_slot : Kernel → ℕ → Option ℕ
get_by_slot k slot =
    if leb max_processes slot
    then none
    else if is_unused (k.table slot).state
    then none
    else some slot

abbrev pub push : ℕ × (ℕ → ℕ) → ℕ → ℕ × (ℕ → ℕ)
push (sp, words) value = (sub32 sp 4, update words (sub32 sp 4) value)

-- The frame that `kthread_create` builds on a stack whose top is `top`.
unfoldable pub fake_frame : ℕ → ℕ → ℕ → (ℕ → ℕ) → ℕ × (ℕ → ℕ)
fake_frame top trampoline entry words =
    push (push (push (push (push (push (top, words) 0) trampoline) 0) entry) 0) 0

-- `trampoline` is the address of `kthread_trampoline`.
unfoldable pub kthread_create : Kernel → ℕ → ℕ → List ℕ → Option (Option ℕ × Kernel)
kthread_create k trampoline entry name = elim (alloc k) [
  | none ↦ none
  | some (none, k') ↦ some (none, k')
  | some (some slot, k') ↦
      let proc = k'.table slot in
      let frame =
        fake_frame (add32 proc.kernel_stack kernel_stack_size) trampoline entry k'.words in
      some (
        some slot,
        record k' {
          table = update k'.table slot (record proc {
            name = copy_name name process_name_len;
            page_directory = Paging.get_directory (machine k'.vmm);
            address_space = k'.vmm.kernel_space;
            kernel_esp = frame.0;
          });
          words = frame.1;
        },
      )
]
