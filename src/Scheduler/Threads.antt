-- ===== src/Scheduler/Threads.antt =====
-- `kthread_create` of kernel/process.c: the thread that it makes, and the first switch to it.
use tuple_os.Common.{
  ℕ, ◌<◌, ◌≡◌, ◌≢◌, sym, false, arith, Option, none, some, add32, sub32, u32_mod, update, List,
}
use mathlib.Core.Path.{subst}
use tuple_os.Paging
use tuple_os.Vmm.{machine}
use tuple_os.Kheap.Correct
use tuple_os.Process.Slots.{IsFresh, IsRefused, is_used}
use tuple_os.Process.{
  Kernel, Cpu, Process, ProcessState, fake_frame, kthread_create, copy_name, max_processes,
  kernel_stack_size, process_name_len,
}
use tuple_os.Scheduler.{context_switch}
use tuple_os.Scheduler.Switch.{Frame, IsApart, context_switch-Frame}

-- The registers of a thread in which nothing has run yet.
abbrev pub fresh_cpu : ℕ → ℕ → ℕ → Cpu
fresh_cpu top trampoline entry = record {
  esp = sub32 top 4;
  ebp = 0;
  ebx = entry;
  esi = 0;
  edi = 0;
  eip = trampoline;
}

fake_frame-Frame :
    (top trampoline entry : ℕ) (words : ℕ → ℕ)
    → top < u32_mod
    → Frame
        (fake_frame top trampoline entry words).1
        (fake_frame top trampoline entry words).0
        (fresh_cpu top trampoline entry)
unfolding fake_frame
fake_frame-Frame top trampoline entry words h = record {
  edi = ground arith;
  esi = ground arith;
  ebx = ground arith;
  ebp = ground arith;
  eip = ground arith;
  esp = omega arith;
}

-- What `kthread_create` leaves when it answers a slot.
pub record Thread (k : Kernel) (trampoline entry : ℕ) (name : List ℕ) (slot : ℕ) (k' : Kernel)
    : Type 0 where
  pub in_table : slot < max_processes
  pub was_unused : is_used k slot ≡ false
  pub ready : (k'.table slot).state ≡ ProcessState.ready
  pub numbered : (k'.table slot).pid ≡ k.next_pid
  pub named : (k'.table slot).name ≡ copy_name name process_name_len
  pub space : (k'.table slot).address_space ≡ k'.vmm.kernel_space
  pub directory : (k'.table slot).page_directory ≡ Paging.get_directory (machine k'.vmm)
  pub frame :
      Frame k'.words
        (k'.table slot).kernel_esp
        (fresh_cpu (add32 (k'.table slot).kernel_stack kernel_stack_size) trampoline entry)
  pub others : (i : ℕ) → i ≢ slot → k'.table i ≡ k.table i

abbrev pub Spawned : Kernel → ℕ → ℕ → List ℕ → Option ℕ → Kernel → Type 0
Spawned k trampoline entry name none k' = IsRefused k k'
Spawned k trampoline entry name (some slot) k' = Thread k trampoline entry name slot k'

-- `kthread_create` behind its call of `process_alloc`.
abbrev pub spawned : Kernel → ℕ → ℕ → List ℕ → ℕ → Kernel
spawned k trampoline entry name slot =
    let proc = k.table slot in
    let frame = fake_frame (add32 proc.kernel_stack kernel_stack_size) trampoline entry k.words in
    record k {
      table = update k.table slot (record proc {
        name = copy_name name process_name_len;
        page_directory = Paging.get_directory (machine k.vmm);
        address_space = k.vmm.kernel_space;
        kernel_esp = frame.0;
      });
      words = frame.1;
    }

update_at : (f : ℕ → Process) (i : ℕ) (p : Process) → update f i p i ≡ p
update_at f i p = ground arith

pub spawned-Thread :
    (k : Kernel) (trampoline entry : ℕ) (name : List ℕ) (slot : ℕ) (k' : Kernel)
    → IsFresh k slot k'
    → Thread k trampoline entry name slot (spawned k' trampoline entry name slot)
spawned-Thread k trampoline entry name slot k' f = record {
  in_table = f.in_table;
  was_unused = f.was_unused;
  ready = ground (arith, f.ready);
  numbered = ground (arith, f.numbered);
  named = ground arith;
  space = ground arith;
  directory = ground arith;
  frame =
      subst
        (λ p.
          Frame frame'.1 p.kernel_esp
            (fresh_cpu (add32 p.kernel_stack kernel_stack_size) trampoline entry))
        (sym (update_at k'.table slot _))
        (fake_frame-Frame (add32 (k'.table slot).kernel_stack kernel_stack_size) trampoline entry
          k'.words (omega arith));
  others = λ i d. ground (arith, f.others i d);
}
  where
    frame' : ℕ × (ℕ → ℕ)
    frame' =
        fake_frame (add32 (k'.table slot).kernel_stack kernel_stack_size) trampoline entry k'.words

pub record Spawn (k : Kernel) (trampoline entry : ℕ) (name : List ℕ) : Type 0 where
  pub answer : Option ℕ
  pub after : Kernel
  pub runs : kthread_create k trampoline entry name ≡ some (answer, after)
  pub spawned : Spawned k trampoline entry name answer after

-- The first switch to a new thread jumps to the trampoline with the entry function in EBX, on the
-- thread's own stack, if the switch pushes elsewhere.
pub first_switch :
    (k k' : Kernel) (trampoline entry : ℕ) (name : List ℕ) (slot resume old : ℕ)
    → Thread k trampoline entry name slot k'
    → IsApart k'.cpu.esp (k'.table slot).kernel_esp
    → (context_switch k' resume old (k'.table slot).kernel_esp).cpu
      ≡ fresh_cpu (add32 (k'.table slot).kernel_stack kernel_stack_size) trampoline entry
first_switch k k' trampoline entry name slot resume old t a =
    context_switch-Frame k' resume old (k'.table slot).kernel_esp _ a t.frame
