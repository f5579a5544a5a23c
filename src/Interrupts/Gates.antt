-- ===== src/Interrupts/Gates.antt =====
-- `idt_init` of kernel/idt.c: the gates that it installs.
use tuple_os.Common.{
  ℕ, zero, suc, ◌+◌, ◌-◌, ◌≤◌, ◌<◌, ◌≡◌, ◌⊎◌, inl, inr, refl, sym, ◌∙◌, ap, arith, some, true,
  update, u32_mod,
}
use native.Mathlib.Decide.{ℕ_discrete}
use mathlib.Core.Path.{subst}
use tuple_os.Descriptors.{IdtEntry, idt_set_entry}
use tuple_os.Descriptors.Fields.{idt_base, idt_set_entry_lem}
use tuple_os.Interrupts.{Idt, Stubs, Writes, install, load_idt, init}

install-outside :
    (n i : ℕ) (stub : ℕ → ℕ) (idt : ℕ → IdtEntry) (k : ℕ)
    → ((k < i) ⊎ (i + n ≤ k))
    → install n i stub idt k ≡ idt k
unfolding install
install-outside zero i stub idt k out = refl
install-outside (suc n) i stub idt k out =
    install-outside n (i + 1) stub _ k (omega arith) ∙ ground arith

install-inside :
    (n i : ℕ) (stub : ℕ → ℕ) (idt : ℕ → IdtEntry) (k : ℕ)
    → i ≤ k
    → k < i + n
    → install n i stub idt k ≡ idt_set_entry (stub k) 0x08 0x8e
unfolding install
install-inside zero i stub idt k lo hi = absurd (omega arith)
install-inside (suc n) i stub idt k lo hi = elim (ℕ_discrete k i) [
  | yes e ↦
      ap (install n (i + 1) stub (update idt i (idt_set_entry (stub i) 0x08 0x8e))) e
      ∙ install-outside n (i + 1) stub _ i (inl (omega arith))
      ∙ ground arith
  | no d ↦ install-inside n (i + 1) stub _ k (omega arith) (omega arith)
]

-- A gate of the table that leads to this address in the kernel's code segment, present, for ring 0.
pub Leads : IdtEntry → ℕ → Type 0
Leads e address = (idt_base e ≡ address) × (e.selector ≡ 0x08) × (e.flags ≡ 0x8e) × (e.zero ≡ 0)

gate-Leads : (address : ℕ) → address < u32_mod → Leads (idt_set_entry address 0x08 0x8e) address
unfolding Leads idt_set_entry
gate-Leads address low = (idt_set_entry_lem address 0x08 0x8e low, refl, refl, refl)

shift : (line : ℕ) → 32 + line - 32 ≡ line
shift line = omega arith

-- Behind `idt_init` the interrupts are enabled and the processor has the table of 256 entries; the gate of
-- every exception leads to its stub, and the gate of the interrupt 32 + line to the stub of that line; the
-- entries from 48 on and the registered handlers are as before. The stubs have 32-bit addresses.
pub init_lem :
    (a : Stubs) (mask_master mask_slave : ℕ) (s : Idt) (writes : Writes)
    → ((i : ℕ) → i < 32 → a.isr i < u32_mod)
    → ((i : ℕ) → i < 16 → a.irq i < u32_mod)
    → let after = (init a mask_master mask_slave (s, writes)).0 in
      ((i : ℕ) → i < 32 → Leads (after.idt i) (a.isr i))
      × ((line : ℕ) → line < 16 → Leads (after.idt (32 + line)) (a.irq line))
      × ((i : ℕ) → 48 ≤ i → after.idt i ≡ s.idt i)
      × (after.handlers ≡ s.handlers)
      × (after.loaded ≡ some (record { limit = 2047; base = a.idt_addr }))
      × (after.enabled ≡ true)
unfolding init load_idt
init_lem a mask_master mask_slave s writes isr irq = (
  λ i low.
      subst (λ e. Leads e (a.isr i))
        (sym (
          install-outside 16 32 (λ i. a.irq (i - 32)) _ i (inl low)
          ∙ install-inside 32 0 a.isr s.idt i (omega arith) low))
        (gate-Leads (a.isr i) (isr i low)),
  λ line low.
      subst (λ e. Leads e (a.irq line))
        (sym (
          install-inside 16 32 (λ i. a.irq (i - 32)) _ (32 + line) (omega arith) (omega arith)
          ∙ ap (λ j. idt_set_entry (a.irq j) 0x08 0x8e) (shift line)))
        (gate-Leads (a.irq line) (irq line low)),
  λ i high.
      install-outside 16 32 (λ i. a.irq (i - 32)) _ i (inr high)
      ∙ install-outside 32 0 a.isr s.idt i (inr (omega arith)),
  refl,
  refl,
  refl,
)
