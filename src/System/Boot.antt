-- ===== src/System/Boot.antt =====
-- `kernel_main` of kernel/kernel.c as a whole: it gets to its endless loop.
use tuple_os.Common.{
  ℕ, ◌+◌, ◌≤◌, ◌<◌, ◌≡◌, ◌≢◌, refl, sym, ap, ◌∙◌, true, false, arith, [], ◌∷◌, some, u32_mod, ◌==◌,
  if◌then◌else◌,
}
use mathlib.Core.Path.{subst}
use tuple_os.Pmm
use tuple_os.Pmm.{Pmm}
use tuple_os.Kheap.Frames.{Run}
use tuple_os.Vmm.{machine}
use tuple_os.Format.{word}
use tuple_os.Format.Ends.{accepts, takes, behind_word}
use tuple_os.Interrupts.{timer, keyboard, page_fault, register_handler}
use tuple_os.Interrupts
use tuple_os.Shell
use tuple_os.System.Booted.{Booted}
use tuple_os.System.{
  System, Loaded, print, start_devices, start_kernel, kernel_main, multiboot_magic, timer_init,
  keyboard_init, gdt_init, idt_init, bad_magic_format, welcome_format,
}
use tuple_os.System.Start.{
  answers, shown, print_ends, IsQuiet, devices, devices_start, kernel_starts,
}

-- The kernel behind `kernel_main`: the devices' handlers are registered behind `idt_init`, and whatever a
-- part has changed besides the screen and the serial line is what `kernel` says.
pub record IsUp (a : Loaded) (s s' : System) : Type 0 where
  pub timer_registered : s'.idt.handlers 32 ≡ some timer
  pub keyboard_registered : s'.idt.handlers 33 ≡ some keyboard
  pub enabled : s'.idt.enabled ≡ true
  pub writes : s'.writes ≡ (devices a s).writes
  pub ticks : s'.shell.ticks ≡ s.shell.ticks
  pub halted : s'.halted ≡ s.halted

devices_up :
    (a : Loaded) (s : System)
    → ((devices a s).idt.handlers 32 ≡ some timer)
      × ((devices a s).idt.handlers 33 ≡ some keyboard)
      × ((devices a s).idt.enabled ≡ true)
      × ((devices a s).shell.ticks ≡ s.shell.ticks)
      × ((devices a s).halted ≡ s.halted)
      × ((devices a s).kernel ≡ s.kernel)
unfolding timer_init keyboard_init idt_init gdt_init register_handler Interrupts.init
    Interrupts.load_idt
devices_up a s = (refl, refl, refl, refl, refl, refl)

-- The last two lines of `kernel_main`.
main_ends :
    (a : Loaded) (magic : ℕ) (s s1 s2 : System)
    → start_devices a s ≡ some s1
    → (if magic == multiboot_magic
        then start_kernel a magic s1
        else print (bad_magic_format, word magic ∷ []) s1)
      ≡ some s2
    → (s' : System) × (kernel_main a magic s ≡ some s') × IsQuiet s2 s'
unfolding kernel_main accepts takes behind_word Shell.init Shell.prompt
main_ends a magic s s1 s2 first second =
    let last = print_ends welcome_format [] s2 refl tt in
    (
      record (shown s2 last.0) { shell = Shell.init (shown s2 last.0).shell },
      answers _ first (answers _ second (answers _ last.1 refl)),
      record {
        idt = refl;
        writes = refl;
        gdt = refl;
        gp = refl;
        kernel = refl;
        ticks = refl;
        halted = refl;
      },
    )

-- What the parts between the devices and the last lines must leave for the kernel to be up.
up :
    (a : Loaded) (s s1 s2 s' : System)
    → IsQuiet (devices a s) s1
    → (s2.idt.handlers 32 ≡ s1.idt.handlers 32)
    → (s2.idt.handlers 33 ≡ s1.idt.handlers 33)
    → (s2.idt.enabled ≡ s1.idt.enabled)
    → (s2.writes ≡ s1.writes)
    → (s2.shell.ticks ≡ s1.shell.ticks)
    → (s2.halted ≡ s1.halted)
    → IsQuiet s2 s'
    → IsUp a s s'
up a s s1 s2 s' d h32 h33 on w t h last =
    let u = devices_up a s in
    record {
      timer_registered =
          ap (λ i. i.handlers 32) last.idt ∙ h32 ∙ ap (λ i. i.handlers 32) d.idt ∙ u.0;
      keyboard_registered =
          ap (λ i. i.handlers 33) last.idt ∙ h33 ∙ ap (λ i. i.handlers 33) d.idt ∙ u.1;
      enabled = ap (λ i. i.enabled) last.idt ∙ on ∙ ap (λ i. i.enabled) d.idt ∙ u.2;
      writes = last.writes ∙ w ∙ d.writes;
      ticks = last.ticks ∙ t ∙ d.ticks ∙ u.3;
      halted = last.halted ∙ h ∙ d.halted ∙ u.4;
    }

-- With the right magic number, where `pmm_init` ends with at least 512 frames free in a row within the
-- reach of its search and frame 0 in use, and on zeroed statistics of the heap: `kernel_main` gets to its
-- endless loop. Then the handlers of the timer, the keyboard and the page fault are registered, the
-- interrupts are enabled, the kernel itself is the one RUNNING process, under PID 0 in slot 0, and the two
-- threads are READY under the PIDs 1 and 2, each with the frame that enters its function.
pub kernel_main_lem :
    (a : Loaded) (s : System) (q : Pmm) (lo hi : ℕ)
    → s.shell.ticks < u32_mod
    → Pmm.init a.entry_at a.mbi a.kernel_symbol (machine s.kernel.vmm).pmm ≡ some q
    → Run q lo hi
    → lo + 512 ≤ hi
    → s.kernel.vmm.heap.total_allocated ≡ 0
    → (s' : System) × (kernel_main a multiboot_magic s ≡ some s')
      × IsUp a s s'
      × Booted a s'.kernel
      × (s'.idt.handlers 14 ≡ some page_fault)
      × (s'.kernel.cpu ≡ s.kernel.cpu)
unfolding register_handler
kernel_main_lem a s q lo hi small e r room zeroed =
    let (s1, first, d) = devices_start a s small in
    let same : s1.kernel ≡ s.kernel = d.kernel ∙ (devices_up a s).5 in
    let (s2, second, k) =
      kernel_starts a multiboot_magic s1 q lo hi (omega arith)
        (subst (λ x. Pmm.init a.entry_at a.mbi a.kernel_symbol (machine x.vmm).pmm ≡ some q)
          (sym same) e)
        r room (ap (λ x. x.vmm.heap.total_allocated) same ∙ zeroed) in
    let (s', runs, last) = main_ends a multiboot_magic s s1 s2 first second in
    (
      s',
      runs,
      up a s s1 s2 s' d (ap (λ i. i.handlers 32) k.idt) (ap (λ i. i.handlers 33) k.idt)
          (ap (λ i. i.enabled) k.idt) k.writes k.ticks k.halted last,
      subst (λ x. Booted a x) (sym last.kernel) k.booted,
      ap (λ i. i.handlers 14) last.idt ∙ ap (λ i. i.handlers 14) k.idt,
      ap (λ x. x.cpu) last.kernel ∙ k.cpu_kept ∙ ap (λ x. x.cpu) same,
    )

-- With any other magic number `kernel_main` starts the devices and gets to its endless loop, and leaves the
-- memory managers, the process table and the scheduler as they were.
pub kernel_main_refuses :
    (a : Loaded) (magic : ℕ) (s : System)
    → magic < u32_mod
    → magic ≢ multiboot_magic
    → s.shell.ticks < u32_mod
    → (s' : System) × (kernel_main a magic s ≡ some s') × IsUp a s s' × (s'.kernel ≡ s.kernel)
unfolding accepts takes behind_word
kernel_main_refuses a magic s word' wrong small =
    let (s1, first, d) = devices_start a s small in
    let other : (magic == multiboot_magic) ≡ false = ground arith in
    let second = print_ends bad_magic_format (word magic ∷ []) s1 refl (word', tt) in
    let (s', runs, last) = main_ends a magic s s1 (shown s1 second.0) first (rw other second.1) in
    (
      s',
      runs,
      up a s s1 (shown s1 second.0) s' d refl refl refl refl refl refl last,
      last.kernel ∙ d.kernel ∙ (devices_up a s).5,
    )
