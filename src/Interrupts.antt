-- ===== src/Interrupts.antt =====
-- kernel/idt.c, idt.h and ports.h: the interrupt table, the interrupt controllers' ports and the table
-- of handlers.
pub mod Controllers
pub mod Gates
use tuple_os.Common.{
  ℕ, zero, suc, ◌+◌, ◌-◌, ◌*◌, Bool, true, false, ltb, leb, ◌&&◌, if◌then◌else◌, List, [], ◌∷◌,
  Option, none, some, update,
}
use tuple_os.Descriptors.{IdtEntry, idt_set_entry}

-- The functions that the kernel registers: `timer_handler`, `keyboard_handler`, `page_fault_handler`.
pub data Handler : Type 0 where
  timer keyboard page_fault : Handler

-- `struct interrupt_frame`
pub record InterruptFrame : Type 0 where
  pub ds : ℕ
  pub edi : ℕ
  pub esi : ℕ
  pub ebp : ℕ
  pub esp : ℕ
  pub ebx : ℕ
  pub edx : ℕ
  pub ecx : ℕ
  pub eax : ℕ
  pub interrupt_number : ℕ
  pub error_code : ℕ
  pub eip : ℕ
  pub cs : ℕ
  pub eflags : ℕ
  pub user_esp : ℕ
  pub user_ss : ℕ

-- `struct idt_ptr`
pub record IdtPtr : Type 0 where
  pub limit : ℕ
  pub base : ℕ

-- The statics of idt.c. `loaded` is what `lidt` read last and `enabled` the interrupt flag of the processor.
pub record Idt : Type 0 where
  pub idt : ℕ → IdtEntry
  pub idtp : IdtPtr
  pub handlers : ℕ → Option Handler
  pub loaded : Option IdtPtr
  pub enabled : Bool

abbrev pub idt_entries : ℕ
idt_entries = 256

-- The writes to ports so far, a port and a byte each, the last one first.
abbrev pub Writes : Type 0
Writes = List (ℕ × ℕ)

unfoldable pub outb : ℕ → ℕ → Writes → Writes
outb port value writes = (port, value) ∷ writes

unfoldable pub io_wait : Writes → Writes
io_wait writes = outb 0x80 0 writes

-- The masks are the bytes that the ports 0x21 and 0xA1 give.
unfoldable pub pic_remap : ℕ → ℕ → Writes → Writes
pic_remap mask_master mask_slave writes =
    let icw1 = io_wait (outb 0xa0 0x11 (io_wait (outb 0x20 0x11 writes))) in
    let icw2 = io_wait (outb 0xa1 0x28 (io_wait (outb 0x21 0x20 icw1))) in
    let icw3 = io_wait (outb 0xa1 0x02 (io_wait (outb 0x21 0x04 icw2))) in
    let icw4 = io_wait (outb 0xa1 0x01 (io_wait (outb 0x21 0x01 icw3))) in
    outb 0xa1 mask_slave (outb 0x21 mask_master icw4)

unfoldable pub register_handler : ℕ → Handler → Idt → Idt
register_handler interrupt handler s = record s {
  handlers = update s.handlers interrupt (some handler);
}

-- The calls of `idt_set_entry` for the interrupts from `i` on, `n` of them, whose stubs are at these
-- addresses.
unfoldable pub install : ℕ → ℕ → (ℕ → ℕ) → (ℕ → IdtEntry) → ℕ → IdtEntry
install zero i stub idt = idt
install (suc n) i stub idt =
    install n (i + 1) stub (update idt i (idt_set_entry (stub i) 0x08 0x8e))

-- The addresses of `isr0` to `isr31` and of `irq0` to `irq15`, and of the table.
pub record Stubs : Type 0 where
  pub isr : ℕ → ℕ
  pub irq : ℕ → ℕ
  pub idt_addr : ℕ

-- `idt_init` behind its call of `pic_remap`; an entry of the table has 8 bytes.
unfoldable pub load_idt : Stubs → Idt → Idt
load_idt a s =
    let pointer : IdtPtr = record { limit = 8 * idt_entries - 1; base = a.idt_addr } in
    record s {
      idtp = pointer;
      idt = install 16 32 (λ i. a.irq (i - 32)) (install 32 0 a.isr s.idt);
      loaded = some pointer;
      enabled = true;
    }

unfoldable pub init : Stubs → ℕ → ℕ → Idt × Writes → Idt × Writes
init a mask_master mask_slave (s, writes) = (load_idt a s, pic_remap mask_master mask_slave writes)

-- The end of `interrupt_handler`: the end of interrupt for the interrupts 32 to 47.
unfoldable pub acknowledge : ℕ → Writes → Writes
acknowledge interrupt_number writes =
    if leb 32 interrupt_number && leb interrupt_number 47
    then outb 0x20 0x20 (if leb 40 interrupt_number then outb 0xa0 0x20 writes else writes)
    else writes
