-- ===== src/System.antt =====
-- `kernel_main` of kernel/kernel.c, with kernel/timer.c, `keyboard_init`, `serial_init` and
-- `interrupt_handler` of kernel/idt.c: the parts put together. What the parts print while they start is
-- left out: the messages here are those of `kernel_main` and of the page fault.
mod Texts
pub mod Memory
pub mod Threads
pub mod Booted
pub mod Start
pub mod Boot
pub mod Dispatch
pub mod Ticks
pub use Texts.*
use tuple_os.Common.{
  ℕ, ◌+◌, ◌/◌, Bool, true, false, ◌==◌, if◌then◌else◌, add32, not, List, [], ◌∷◌, Option, none,
  some,
}
use tuple_os.Pmm
use tuple_os.Pmm.{MmapEntry, MultibootInfo}
use tuple_os.Paging
use tuple_os.Kheap
use tuple_os.Vmm
use tuple_os.Vmm.{machine}
use tuple_os.Vmm.Report
use tuple_os.Process
use tuple_os.Process.{Kernel}
use tuple_os.Scheduler
use tuple_os.Terminal
use tuple_os.Format
use tuple_os.Format.{Call, Arg, word, text}
use tuple_os.Shell
use tuple_os.Shell.{Shell}
use tuple_os.Descriptors
use tuple_os.Descriptors.{GdtEntry, GdtPtr, divisor_bytes}
use tuple_os.Interrupts
use tuple_os.Interrupts.{
  Handler, InterruptFrame, Idt, Writes, Stubs, timer, keyboard, page_fault, outb, acknowledge,
}

infixl 5 ◌>>=◌
abbrev pub ◌>>=◌ : {A B : Type 0} → Option A → (A → Option B) → Option B
◌>>=◌ m f = elim m [ none ↦ none | some a ↦ f a ]

-- The state of the whole kernel: the ticks and the screen are in `shell`, `sent` are the characters sent
-- to COM1.
pub record System : Type 0 where
  pub idt : Idt
  pub writes : Writes
  pub gdt : List GdtEntry
  pub gp : GdtPtr
  pub kernel : Kernel
  pub shell : Shell
  pub sent : List ℕ
  pub halted : Bool

-- What the boot loader, the linker and the devices give: the addresses of the interrupt stubs, of the
-- segment table, of the end of the kernel, of the trampoline and of the two threads, the masks of the interrupt controllers, and
-- the memory map.
pub record Loaded : Type 0 where
  pub stubs : Stubs
  pub gdt_addr : ℕ
  pub mask_master : ℕ
  pub mask_slave : ℕ
  pub kernel_symbol : ℕ
  pub trampoline : ℕ
  pub thread_a : ℕ
  pub thread_b : ℕ
  pub entry_at : ℕ → MmapEntry
  pub mbi : MultibootInfo

abbrev pub multiboot_magic : ℕ
multiboot_magic = 0x2bad_b002

abbrev pub timer_irq : ℕ
timer_irq = 32

abbrev pub keyboard_irq : ℕ
keyboard_irq = 33

abbrev pub com1 : ℕ
com1 = 0x3f8

unfoldable pub serial_init : Writes → Writes
serial_init writes =
    let divided = outb (com1 + 3) 0x80 (outb (com1 + 1) 0 writes) in
    let rate = outb (com1 + 1) 0 (outb (com1 + 0) 3 divided) in
    outb (com1 + 4) 0x0b (outb (com1 + 2) 0xc7 (outb (com1 + 3) 3 rate))

unfoldable pub get_ticks : System → ℕ
get_ticks s = s.shell.ticks

-- `resume` is the address in `schedule` behind its call of `context_switch`.
unfoldable pub timer_handler : ℕ → System → System
timer_handler resume s = record s {
  shell = record s.shell { ticks = add32 s.shell.ticks 1 };
  writes = outb 0x20 0x20 s.writes;
  kernel = Scheduler.schedule s.kernel resume;
}

-- `frequency` is not 0.
unfoldable pub timer_init : ℕ → System → System
timer_init frequency s =
    let bytes = divisor_bytes frequency in
    record s {
      writes = outb 0x40 bytes.1 (outb 0x40 bytes.0 (outb 0x43 0x36 s.writes));
      idt = Interrupts.register_handler timer_irq timer s.idt;
    }

unfoldable pub keyboard_init : System → System
keyboard_init s = record s { idt = Interrupts.register_handler keyboard_irq keyboard s.idt }

unfoldable pub gdt_init : Loaded → System → System
gdt_init a s = record s { gdt = Descriptors.gdt_init; gp = Descriptors.gdt_pointer a.gdt_addr }

unfoldable pub idt_init : Loaded → System → System
idt_init a s =
    let started = Interrupts.init a.stubs a.mask_master a.mask_slave (s.idt, s.writes) in
    record s { idt = started.0; writes = started.1 }

-- `terminal_writestring`, `kprintf` and `serial_printf`
unfoldable pub say : List ℕ → System → System
say chars s = record s { shell = Shell.say chars s.shell }

unfoldable pub print : Call → System → Option System
print (format, args) s = do
  t ← Format.kprintf format args s.shell.terminal
  some (record s { shell = record s.shell { terminal = t } })

unfoldable pub send : Call → System → Option System
send (format, args) s = do
  sent ← Format.serial_printf format args s.sent
  some (record s { sent = sent })

-- The tables, the keyboard and the timer, with the messages between them.
unfoldable pub start_interrupts : Loaded → System → System
start_interrupts a s =
    let with_gdt = say gdt_end_text (gdt_init a (say gdt_begin_text s)) in
    let with_idt = say idt_end_text (idt_init a (say idt_begin_text with_gdt)) in
    let with_keyboard = say keyboard_end_text (keyboard_init (say keyboard_begin_text with_idt)) in
    timer_init 100 (say complete_text with_keyboard)

-- `kernel_main` before it looks at the magic number.
unfoldable pub start_devices : Loaded → System → Option System
start_devices a s0 = do
  s1 ←
      send (serial_ready_format, [])
        (record s0 {
          shell = record s0.shell { terminal = Terminal.initialize s0.shell.terminal };
          writes = serial_init s0.writes;
        })
  s2 ← send (serial_ticks_format, word (get_ticks s1) ∷ []) s1
  print (timer_format, []) (start_interrupts a s2)

-- `pmm_init`, `paging_init`, `kheap_init` and `vmm_init`
unfoldable pub start_memory : Loaded → Kernel → Option Kernel
start_memory a k = do
  pmm ← Pmm.init a.entry_at a.mbi a.kernel_symbol (machine k.vmm).pmm
  some (record k {
    vmm = Vmm.init a.kernel_symbol (record k.vmm {
      heap =
          Kheap.init
            (record k.vmm.heap { machine = Paging.init (record (machine k.vmm) { pmm = pmm }) });
    });
  })

-- `process_init`, the two threads and `scheduler_init`
unfoldable pub start_threads : Loaded → Kernel → Option Kernel
start_threads a k = do
  (x, k1) ← Process.kthread_create (Process.init k) a.trampoline a.thread_a thread_a_name
  (y, k2) ← Process.kthread_create k1 a.trampoline a.thread_b thread_b_name
  some (Scheduler.init k2)

-- The page fault handler that `vmm_init` registers.
unfoldable pub register_page_fault : System → System
register_page_fault s = record s { idt = Interrupts.register_handler 14 page_fault s.idt }

abbrev pub kilobytes : ℕ → Arg
kilobytes n = word (n / 1024)

-- The branch of `kernel_main` for the right magic number.
unfoldable pub start_kernel : Loaded → ℕ → System → Option System
start_kernel a magic s0 = do
  s1 ← print (magic_format, word magic ∷ []) s0
  k1 ← start_memory a s1.kernel
  k2 ← start_threads a k1
  s2 ←
      print
        (
          heap_format,
          kilobytes (Kheap.get_used k2.vmm.heap) ∷ kilobytes (Kheap.get_free k2.vmm.heap) ∷ [],
        )
        (register_page_fault (record s1 { kernel = k2 }))
  print (memory_format, kilobytes (Pmm.get_free_memory (machine k2.vmm).pmm) ∷ []) s2

-- `kernel_main` up to its endless loop; `none`: one of the parts does not return.
unfoldable pub kernel_main : Loaded → ℕ → System → Option System
kernel_main a magic s0 = do
  s1 ← start_devices a s0
  s2 ←
      if magic == multiboot_magic
      then start_kernel a magic s1
      else print (bad_magic_format, word magic ∷ []) s1
  s3 ← print (welcome_format, []) s2
  some (record s3 { shell = Shell.init s3.shell })

-- What the handlers read when an interrupt comes: the scancode at port 0x60, CR2, and the address in
-- `schedule` behind its call of `context_switch`.
pub record Inputs : Type 0 where
  pub scancode : ℕ
  pub cr2 : ℕ
  pub resume : ℕ

-- A registered handler on a frame.
unfoldable pub handle : Handler → Inputs → InterruptFrame → System → Option System
handle timer x frame s = some (timer_handler x.resume s)
handle keyboard x frame s = do
  shell ← Shell.keyboard_handler x.scancode s.shell
  some (record s { shell = shell })
handle page_fault x frame s = do
  (t, sent) ←
      Report.page_fault_handler s.kernel.vmm x.cr2 frame.error_code frame.eip
        (s.shell.terminal, s.sent)
  some (record s { shell = record s.shell { terminal = t }; sent = sent; halted = true })

unfoldable pub call_handler : Option Handler → Inputs → InterruptFrame → System → Option System
call_handler none x frame s = some s
call_handler (some h) x frame s = handle h x frame s

-- The part of `interrupt_handler` behind the call of the handler.
unfoldable pub finish : ℕ → System → System
finish interrupt_number s =
    if s.halted then s else record s { writes = acknowledge interrupt_number s.writes }

-- Another process is the current one behind the handler than before it.
unfoldable pub switched : Option ℕ → Option ℕ → Bool
switched none c' = false
switched (some c) none = false
switched (some c) (some c') = not (c == c')

-- `interrupt_handler` up to the point where it returns or has switched to another thread. In the second case
-- `finish` runs once the thread that was interrupted is resumed.
unfoldable pub interrupt_handler : Inputs → InterruptFrame → System → Option System
interrupt_handler x frame s = do
  s' ← call_handler (s.idt.handlers frame.interrupt_number) x frame s
  some
      (if switched s.kernel.current s'.kernel.current then s' else finish frame.interrupt_number s')

-- A round of the endless loops of `thread_a` and `thread_b`; the busy wait changes nothing.
pub thread_a_round : System → Option System
thread_a_round s = print (thread_a_format, []) s

pub thread_b_round : System → Option System
thread_b_round s = print (thread_b_format, []) s
