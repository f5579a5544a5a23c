-- ===== src/System/Start.antt =====
-- `start_devices` and `start_kernel`, the two parts of `kernel_main` of kernel/kernel.c, end.
use tuple_os.Common.{
  ℕ, ◌+◌, ◌/◌, ◌≤◌, ◌<◌, ◌≡◌, refl, ap, ◌∙◌, true, arith, List, [], ◌∷◌, Option, some, u32_mod,
}
use tuple_os.Pmm
use tuple_os.Pmm.{Pmm}
use tuple_os.Kheap
use tuple_os.Kheap.Correct
use tuple_os.Kheap.Blocks.{Block}
use tuple_os.Kheap.Frames.{Run}
use tuple_os.Vmm.{machine}
use tuple_os.Process.{Kernel}
use tuple_os.Format.{Arg, word}
use tuple_os.Format.Ends.{accepts, takes, behind_word, Sized, printf_total}
use tuple_os.Terminal
use tuple_os.Terminal.{Terminal}
use tuple_os.Interrupts.{page_fault, register_handler}
use tuple_os.System.Memory.{start_memory-Ready}
use tuple_os.System.Booted.{Booted, start_threads-Booted}
use tuple_os.System.{
  System, Loaded, print, send, say, start_devices, start_kernel, serial_init, timer_init,
  keyboard_init, gdt_init, idt_init, get_ticks, register_page_fault, serial_ready_format,
  serial_ticks_format, timer_format, magic_format, heap_format, memory_format, kilobytes,
  start_interrupts, ◌>>=◌,
}

-- A step that answers, and what the next one makes of its answer.
pub answers :
    {A B : Type 0} {m : Option A} {a : A} {r : Option B}
    → (f : A → Option B) → m ≡ some a
    → f a ≡ r
    → (m >>= f) ≡ r
answers f e h = ap (λ o. o >>= f) e ∙ h

abbrev pub shown : System → Terminal → System
shown s t = record s { shell = record s.shell { terminal = t } }

pub print_ends :
    (format : List ℕ) (args : List Arg) (s : System)
    → accepts format args ≡ true
    → Sized args
    → (t : Terminal) × (print (format, args) s ≡ some (shown s t))
unfolding print
print_ends format args s e z =
    let x = printf_total format args s.shell.terminal [] e z in (x.0.0, rw (x.0.1, print) refl)

send_ends :
    (format : List ℕ) (args : List Arg) (s : System)
    → accepts format args ≡ true
    → Sized args
    → (sent : List ℕ) × (send (format, args) s ≡ some (record s { sent = sent }))
unfolding send
send_ends format args s e z =
    let x = printf_total format args s.shell.terminal s.sent e z in (x.1.0, rw (x.1.1, send) refl)

-- But for the screen and the serial line the states are the same.
pub record IsQuiet (s s' : System) : Type 0 where
  pub idt : s'.idt ≡ s.idt
  pub writes : s'.writes ≡ s.writes
  pub gdt : s'.gdt ≡ s.gdt
  pub gp : s'.gp ≡ s.gp
  pub kernel : s'.kernel ≡ s.kernel
  pub ticks : s'.shell.ticks ≡ s.shell.ticks
  pub halted : s'.halted ≡ s.halted

-- The devices in the order of `kernel_main`, without its messages.
abbrev pub devices : Loaded → System → System
devices a s =
    timer_init 100
      (keyboard_init (idt_init a (gdt_init a (record s { writes = serial_init s.writes }))))

pub devices_start :
    (a : Loaded) (s : System)
    → s.shell.ticks < u32_mod
    → (s' : System) × (start_devices a s ≡ some s') × IsQuiet (devices a s) s'
unfolding start_devices start_interrupts accepts takes behind_word get_ticks timer_init
    keyboard_init idt_init gdt_init say
devices_start a s small =
    let cleared : System = record s {
      shell = record s.shell { terminal = Terminal.initialize s.shell.terminal };
      writes = serial_init s.writes;
    } in
    let first = send_ends serial_ready_format [] cleared refl tt in
    let s1 : System = record cleared { sent = first.0 } in
    let second = send_ends serial_ticks_format (word s.shell.ticks ∷ []) s1 refl (small, tt) in
    let s2 : System = record s1 { sent = second.0 } in
    let last = print_ends timer_format [] (start_interrupts a s2) refl tt in
    (
      shown (start_interrupts a s2) last.0,
      answers _ first.1 (answers _ second.1 last.1),
      record {
        idt = refl;
        writes = refl;
        gdt = refl;
        gp = refl;
        kernel = refl;
        ticks = refl;
        halted = refl;
      },
    )

-- The branch for the right magic number, without its messages.
pub record IsStarted (a : Loaded) (s s' : System) : Type 0 where
  pub booted : Booted a s'.kernel
  pub cpu_kept : s'.kernel.cpu ≡ s.kernel.cpu
  pub idt : s'.idt ≡ register_handler 14 page_fault s.idt
  pub writes : s'.writes ≡ s.writes
  pub ticks : s'.shell.ticks ≡ s.shell.ticks
  pub halted : s'.halted ≡ s.halted

used_small :
    (k : Kernel) (bs : List Block)
    → Correct.IsValid k.vmm.heap bs
    → Kheap.get_used k.vmm.heap / 1024 < u32_mod
unfolding Kheap.get_used
used_small k bs v = omega (arith, v.counted, v.high, v.limit, Correct.in_range k.vmm.heap bs v)

free_small : (k : Kernel) → Kheap.get_free k.vmm.heap / 1024 < u32_mod
unfolding Kheap.get_free
free_small k = omega arith

memory_small : (p : Pmm) → Pmm.get_free_memory p / 1024 < u32_mod
unfolding Pmm.get_free_memory
memory_small p = omega arith

pub kernel_starts :
    (a : Loaded) (magic : ℕ) (s : System) (q : Pmm) (lo hi : ℕ)
    → magic < u32_mod
    → Pmm.init a.entry_at a.mbi a.kernel_symbol (machine s.kernel.vmm).pmm ≡ some q
    → Run q lo hi
    → lo + 512 ≤ hi
    → s.kernel.vmm.heap.total_allocated ≡ 0
    → (s' : System) × (start_kernel a magic s ≡ some s') × IsStarted a s s'
unfolding start_kernel accepts takes behind_word register_page_fault
kernel_starts a magic s q lo hi word' e r room zeroed =
    let first = print_ends magic_format (word magic ∷ []) s refl (word', tt) in
    let m = start_memory-Ready a s.kernel q lo hi e r room zeroed in
    let (k2, run, b, cpu) = start_threads-Booted a m.after m.heap m.heap_start in
    let s1 : System = record (shown s first.0) { kernel = k2 } in
    let second =
      print_ends heap_format
        (kilobytes (Kheap.get_used k2.vmm.heap) ∷ kilobytes (Kheap.get_free k2.vmm.heap) ∷ [])
        (register_page_fault s1) refl (used_small k2 _ b.heap, (free_small k2, tt)) in
    let s2 = shown (register_page_fault s1) second.0 in
    let last =
      print_ends memory_format (kilobytes (Pmm.get_free_memory (machine k2.vmm).pmm) ∷ []) s2 refl
        (memory_small (machine k2.vmm).pmm, tt) in
    (
      shown s2 last.0,
      answers _ first.1 (answers _ m.runs (answers _ run (answers _ second.1 last.1))),
      record {
        booted = b;
        cpu_kept = cpu ∙ m.cpu_kept;
        idt = refl;
        writes = refl;
        ticks = refl;
        halted = refl;
      },
    )
