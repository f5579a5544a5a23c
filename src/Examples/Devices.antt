-- ===== src/Examples/Devices.antt =====
-- The theorems on kernel/idt.c and kernel/timer.c at concrete controllers.
use tuple_os.Common.{
  if◌then◌else◌, ◌==◌, ℕ, ◌+◌, ◌≡◌, ◌≤◌, ◌<◌, ◌⊎◌, refl, true, false, arith, some, none, [], ◌∷◌,
}
use tuple_os.Interrupts.{Idt, Stubs, InterruptFrame, timer, keyboard, acknowledge, init}
use tuple_os.Interrupts.Controllers.{Pics, ready, icw2, run, raise, programmed, acknowledge_lem}
use tuple_os.Interrupts.Gates.{Leads, init_lem}
use tuple_os.System.{System, Inputs, interrupt_handler}
use tuple_os.System.Dispatch.{Wrote, keyboard_interrupt}
use tuple_os.Shell.Keys.{Pressed}
use tuple_os.Examples.Keys.{shell, help_line, shell-IsLine}
use tuple_os.Examples.{kernel}

-- The controllers behind `pic_remap`, nothing in service.
abbrev idle : Pics
idle = record { master = programmed 32 4 0xb8; slave = programmed 40 2 0x8e }

-- Controllers in the middle of an initialization.
abbrev lost : Pics
lost = record {
  master = record { phase = icw2; offset = 8; wiring = 0; mode = 0; mask = 0; in_service = 3 ∷ [] };
  slave = record { phase = ready; offset = 112; wiring = 0; mode = 0; mask = 255; in_service = [] };
}

-- Line 12 of the slave.
acknowledge_lem_example :
    (run (acknowledge 44 []) (raise 12 idle) ≡ idle)
    × ((n : ℕ) → (n < 32) ⊎ (47 < n) → acknowledge n [] ≡ [])
unfolding run
acknowledge_lem_example = acknowledge_lem 12 [] (raise 12 idle) idle (omega arith) refl

abbrev stubs : Stubs
stubs = record { isr = λ i. 0xc010_1000 + i; irq = λ i. 0xc010_2000 + i; idt_addr = 0xc010_3000 }

abbrev idt : Idt
idt = record {
  idt = λ i. record { base_low = 0; selector = 0; zero = 0; flags = 0; base_high = 0 };
  idtp = record { limit = 0; base = 0 };
  handlers = λ i. some (if i == 32 then timer else keyboard);
  loaded = none;
  enabled = true;
}

init_lem_example :
    let after = (init stubs 0xb8 0x8e (idt, [])).0 in
    ((i : ℕ) → i < 32 → Leads (after.idt i) (0xc010_1000 + i))
    × ((line : ℕ) → line < 16 → Leads (after.idt (32 + line)) (0xc010_2000 + line))
    × ((i : ℕ) → 48 ≤ i → after.idt i ≡ idt.idt i)
    × (after.handlers ≡ idt.handlers)
    × (after.loaded ≡ some (record { limit = 2047; base = 0xc010_3000 }))
    × (after.enabled ≡ true)
init_lem_example = init_lem stubs 0xb8 0x8e idt [] (λ i low. omega arith) (λ i low. omega arith)

abbrev system : System
system = record {
  idt = idt;
  writes = [];
  gdt = [];
  gp = record { limit = 0; base = 0 };
  kernel = kernel;
  shell = shell;
  sent = [];
  halted = false;
}

abbrev frame : ℕ → InterruptFrame
frame n = record {
  ds = 16;
  edi = 0;
  esi = 0;
  ebp = 0;
  esp = 0;
  ebx = 0;
  edx = 0;
  ecx = 0;
  eax = 0;
  interrupt_number = n;
  error_code = 0;
  eip = 0xc010_0000;
  cs = 8;
  eflags = 0x202;
  user_esp = 0;
  user_ss = 0;
}

-- The newline key, and the address behind the call of `context_switch`.
abbrev inputs : Inputs
inputs = record { scancode = 0x1c; cr2 = 0; resume = 0xc010_4000 }

keyboard_interrupt_example :
    (s' : System) × (interrupt_handler inputs (frame 33) system ≡ some s')
    × Pressed shell help_line 0x1c (some s'.shell)
    × (s'.kernel ≡ kernel)
    × Wrote [] s'.writes (raise 1 idle) idle
keyboard_interrupt_example =
    keyboard_interrupt inputs (frame 33) system idle help_line refl refl refl (omega arith)
      shell-IsLine
