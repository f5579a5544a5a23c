-- ===== src/Examples/Boot.antt =====
-- The theorems on `kernel_main` and the interrupts at a machine of 6 MB.
use tuple_os.Common
use tuple_os.Common.{
  ℕ, ◌+◌, ◌≤◌, ◌<◌, ◌≡◌, ◌*◌, ◌↔◌, refl, sym, ap, Bool-cases, inl, inr, ◌∙◌, true, false, arith,
  Option, some, none, [], ◌∷◌, bit_and, ltb, update, fill_with,
}
use tuple_os.Pmm
use tuple_os.Pmm.{Pmm, MmapEntry, MultibootInfo, bitmap_bytes}
use tuple_os.Pmm.Bitmap.{is_free, IsBytes}
use tuple_os.Pmm.Walk.{IsMapped, Usable, here, init_frees_exactly, Covered, kernel_end_of}
use tuple_os.Kheap.Frames.{Run}
use tuple_os.Paging.{Machine}
use tuple_os.Process.{Kernel}
use tuple_os.Scheduler.{schedule}
use tuple_os.Scheduler.Rotation.{IsRunning}
use tuple_os.Scheduler.Threads.{fresh_cpu}
use tuple_os.System.Ticks.{first_tick}
use tuple_os.Interrupts.{page_fault}
use tuple_os.System.{System, Loaded, kernel_main, multiboot_magic}
use tuple_os.System.Boot.{IsUp, kernel_main_lem}
use tuple_os.System.Booted.{Booted}
use tuple_os.Examples.{machine, kernel, vmm, heap}

-- 6 MB from address 0.
abbrev memory_entry : ℕ → MmapEntry
memory_entry a = record { size = 20; base_addr = 0; length = 0x60_0000; type = 1 }

abbrev boot_info : MultibootInfo
boot_info = record { flags = 64; mmap_length = 24; mmap_addr = 0x9000 }

abbrev statics : Pmm
statics = record { bitmap = λ i. 0; total_frames = 0; used_frames = 0 }

abbrev total : Option Pmm → ℕ
total none = 0
total (some p) = p.total_frames

counted : total (Pmm.init memory_entry boot_info 0xc010_5000 statics) ≡ 1275
unfolding Pmm.init Pmm.walk_mmap Pmm.mark_entry Pmm.mark_frames Pmm.mark_frame Common.page_up
counted = refl

boot_info-IsMapped : IsMapped memory_entry boot_info
boot_info-IsMapped = record {
  available = ground arith;
  forward = λ a h. omega arith;
  fits = λ a t. omega arith;
  begins = λ a t. omega arith;
}

abbrev initialized :
    (q : Pmm) × (Pmm.init memory_entry boot_info 0xc010_5000 statics ≡ some q)
    × IsBytes q.bitmap
    × ((g : ℕ)
        → g < bitmap_bytes * 8
        → (is_free q.bitmap g ≡ true) ↔ Covered memory_entry boot_info 0xc010_5000 g)
initialized =
    init_frees_exactly memory_entry boot_info 0xc010_5000 statics (λ i. omega arith)
      boot_info-IsMapped

initialized_total : initialized.0.total_frames ≡ 1275
initialized_total = sym (ap total initialized.1) ∙ counted

covered : (g : ℕ) → 261 ≤ g → g < 1272 → Usable (kernel_end_of 0xc010_5000) (memory_entry 0x9000) g
unfolding Common.page_up
covered g lo hi = record {
  available = refl;
  first_byte = omega arith;
  last_byte = omega arith;
  behind_low = omega arith;
  behind_kernel = omega (arith, lo);
}

uncovered : (a : ℕ) → ¬ Usable (kernel_end_of 0xc010_5000) (memory_entry a) 0
uncovered a u = omega (arith, u.behind_low)

null_used : is_free initialized.0.bitmap 0 ≡ false
null_used = elim (Bool-cases (is_free initialized.0.bitmap 0)) [
  | inl free ↦ let c = (initialized.3 0 (omega arith)).0 free in absurd (uncovered c.0 c.2)
  | inr used ↦ used
]

initialized-Run : Run initialized.0 261 1272
initialized-Run = record {
  bytes = initialized.2;
  counted = omega (arith, initialized_total);
  null = null_used;
  free = λ g lo hi. (initialized.3 g (omega arith)).1 (0x9000, here (omega arith), covered g lo hi);
  reach = omega (arith, initialized_total);
}

abbrev boot_machine : Machine
boot_machine = record machine { pmm = statics }

-- The statics before `kernel_main`, with the stack of the boot loader.
abbrev boot_kernel : Kernel
boot_kernel = record kernel {
  vmm = record vmm { heap = record heap { machine = boot_machine; total_allocated = 0 } };
  cpu = record { esp = 0xc010_4000; ebp = 0; ebx = 0; esi = 0; edi = 0; eip = 0 };
}

abbrev boot_system : System
boot_system = record {
  idt = record {
    idt = λ i. record { base_low = 0; selector = 0; zero = 0; flags = 0; base_high = 0 };
    idtp = record { limit = 0; base = 0 };
    handlers = λ i. none;
    loaded = none;
    enabled = false;
  };
  writes = [];
  gdt = [];
  gp = record { limit = 0; base = 0 };
  kernel = boot_kernel;
  shell = record {
    buffer = λ i. 0;
    length = 0;
    terminal = record { row = 0; column = 0; color = 7; buffer = λ j. 0; cursor = 0 };
    ticks = 0;
    shift_held = false;
  };
  sent = [];
  halted = false;
}

abbrev loaded : Loaded
loaded = record {
  stubs = record { isr = λ i. 0xc010_1000 + i; irq = λ i. 0xc010_2000 + i; idt_addr = 0xc010_3000 };
  gdt_addr = 0xc010_3800;
  mask_master = 0xb8;
  mask_slave = 0x8e;
  kernel_symbol = 0xc010_5000;
  trampoline = 0xc010_0100;
  thread_a = 0xc010_0200;
  thread_b = 0xc010_0300;
  entry_at = memory_entry;
  mbi = boot_info;
}

kernel_main_lem_example :
    (s' : System) × (kernel_main loaded multiboot_magic boot_system ≡ some s')
    × IsUp loaded boot_system s'
    × Booted loaded s'.kernel
    × (s'.idt.handlers 14 ≡ some page_fault)
    × (s'.kernel.cpu ≡ boot_system.kernel.cpu)
kernel_main_lem_example =
    kernel_main_lem loaded boot_system initialized.0 261 1272 (omega arith) initialized.1
      initialized-Run (omega arith) refl

abbrev up_system :
    (s' : System) × (kernel_main loaded multiboot_magic boot_system ≡ some s')
    × IsUp loaded boot_system s'
    × Booted loaded s'.kernel
    × (s'.idt.handlers 14 ≡ some page_fault)
    × (s'.kernel.cpu ≡ boot_system.kernel.cpu)
up_system =
    kernel_main_lem loaded boot_system initialized.0 261 1272 (omega arith) initialized.1
      initialized-Run (omega arith) refl

-- The kernel that has started.
abbrev up_kernel : Kernel
up_kernel = up_system.0.kernel

up_esp : up_kernel.cpu.esp ≡ 0xc010_4000
up_esp = ap (λ c. c.esp) up_system.5

first_tick_example :
    IsRunning (schedule up_kernel 0xc010_0500) 1
    × ((schedule up_kernel 0xc010_0500).cpu
        ≡ fresh_cpu (0xc040_1000 + 8192) 0xc010_0100 0xc010_0200)
first_tick_example =
    first_tick loaded up_kernel 0xc010_0500 up_system.3 (omega (arith, up_esp))
      (omega (arith, up_esp))
