-- ===== src/Scheduler/Switch.antt =====
-- boot/context_switch.asm: what a switch saves, and what the CPU holds behind it.
use tuple_os.Common.{◌⊎◌, ℕ, ◌+◌, ◌-◌, ◌≤◌, ◌<◌, ◌≡◌, sym, ap, ◌∙◌, arith, add32, u32_mod}
use mathlib.Core.Path.{subst}
use tuple_os.Process.{Kernel, Cpu, push}
use tuple_os.Scheduler.{context_switch}

-- The memory holds the frame that a switch to this stack pointer pops.
pub record Frame (words : ℕ → ℕ) (sp : ℕ) (c : Cpu) : Type 0 where
  pub edi : words sp ≡ c.edi
  pub esi : words (add32 sp 4) ≡ c.esi
  pub ebx : words (add32 sp 8) ≡ c.ebx
  pub ebp : words (add32 sp 12) ≡ c.ebp
  pub eip : words (add32 sp 16) ≡ c.eip
  pub esp : add32 sp 20 ≡ c.esp

-- The five words below `esp` that a switch pushes and those that it pops are apart, and each lies below
-- 4 GB.
pub record IsApart (esp sp : ℕ) : Type 0 where
  pub room : 20 ≤ esp
  pub top : esp < u32_mod
  pub below : sp + 20 < u32_mod
  pub apart : (esp ≤ sp) ⊎ (sp + 20 ≤ esp - 20)

-- `context_switch` leaves the frame of the thread that it leaves below its stack pointer, saved in its
-- PCB.
pub saved-Frame :
    (k : Kernel) (resume old sp : ℕ)
    → 20 ≤ k.cpu.esp
    → k.cpu.esp < u32_mod
    → let k' = context_switch k resume old sp in
      ((k'.table old).kernel_esp ≡ k.cpu.esp - 20)
      × Frame k'.words (k.cpu.esp - 20) (record k.cpu { eip = resume })
unfolding context_switch
saved-Frame k resume old sp room top = (
  ground arith,
  record {
    edi = ground arith;
    esi = ground arith;
    ebx = ground arith;
    ebp = ground arith;
    eip = ground arith;
    esp = omega arith;
  },
)

abbrev pushed : Kernel → ℕ → ℕ → ℕ
pushed k resume =
    (push (push (push (push (push (k.cpu.esp, k.words) resume) k.cpu.ebp) k.cpu.ebx) k.cpu.esi)
      k.cpu.edi).1

-- The pushes of a switch leave the words of a frame that is apart.
pushed_misses :
    (k : Kernel) (resume sp at_word : ℕ)
    → IsApart k.cpu.esp sp
    → sp ≤ at_word
    → at_word < sp + 20
    → pushed k resume at_word ≡ k.words at_word
pushed_misses k resume sp at_word a lo hi = ground (arith, a.room, a.top, a.below, a.apart)

Cpu_ext :
    (a b : Cpu)
    → a.esp ≡ b.esp
    → a.ebp ≡ b.ebp
    → a.ebx ≡ b.ebx
    → a.esi ≡ b.esi
    → a.edi ≡ b.edi
    → a.eip ≡ b.eip
    → a ≡ b
Cpu_ext a b p q r s t u = cc

-- A frame that the pushes of a switch do not meet is what the CPU holds behind the switch.
pub context_switch-Frame :
    (k : Kernel) (resume old sp : ℕ) (c : Cpu)
    → IsApart k.cpu.esp sp
    → Frame k.words sp c
    → (context_switch k resume old sp).cpu ≡ c
unfolding context_switch
context_switch-Frame k resume old sp c a f =
    Cpu_ext _ c f.esp (word 12 (omega arith) ∙ f.ebp) (word 8 (omega arith) ∙ f.ebx)
      (word 4 (omega arith) ∙ f.esi)
      (pushed_misses k resume sp sp a (omega arith) (omega arith) ∙ f.edi)
      (word 16 (omega arith) ∙ f.eip)
  where
    word : (n : ℕ) → n < 20 → pushed k resume (add32 sp n) ≡ k.words (add32 sp n)
    word n h =
        pushed_misses k resume sp (add32 sp n) a (omega (arith, a.below)) (omega (arith, a.below))

Frame-kept :
    (w w' : ℕ → ℕ) (sp : ℕ) (c : Cpu)
    → sp + 20 < u32_mod
    → ((n : ℕ) → n < 20 → w' (sp + n) ≡ w (sp + n))
    → Frame w sp c
    → Frame w' sp c
Frame-kept w w' sp c top same f = record {
  edi = ap w' (omega arith) ∙ same 0 (omega arith) ∙ ap w (omega arith) ∙ f.edi;
  esi = word 4 (omega arith) ∙ f.esi;
  ebx = word 8 (omega arith) ∙ f.ebx;
  ebp = word 12 (omega arith) ∙ f.ebp;
  eip = word 16 (omega arith) ∙ f.eip;
  esp = f.esp;
}
  where
    word : (n : ℕ) → n < 20 → w' (add32 sp n) ≡ w (add32 sp n)
    word n h =
        let flat : add32 sp n ≡ sp + n = omega arith in ap w' flat ∙ same n h ∙ ap w (sym flat)

-- A thread that `context_switch` leaves gets back its registers, its stack pointer and its place in the
-- code when a later switch comes to it, if its five saved words and its saved stack pointer were left
-- alone and that switch pushes elsewhere.
pub context_switch_back :
    (k k' : Kernel) (resume resume' old old' sp : ℕ)
    → 20 ≤ k.cpu.esp
    → k.cpu.esp < u32_mod
    → ((n : ℕ)
        → n < 20
        → k'.words (k.cpu.esp - 20 + n)
          ≡ (context_switch k resume old sp).words (k.cpu.esp - 20 + n))
    → (k'.table old).kernel_esp ≡ ((context_switch k resume old sp).table old).kernel_esp
    → IsApart k'.cpu.esp (k.cpu.esp - 20)
    → (context_switch k' resume' old' (k'.table old).kernel_esp).cpu ≡ record k.cpu { eip = resume }
context_switch_back k k' resume resume' old old' sp room top same kept a =
    let (esp, f) = saved-Frame k resume old sp room top in
    subst (λ e. (context_switch k' resume' old' e).cpu ≡ record k.cpu { eip = resume })
      (sym (kept ∙ esp))
      (context_switch-Frame k' resume' old' (k.cpu.esp - 20) (record k.cpu { eip = resume }) a
        (Frame-kept _ k'.words (k.cpu.esp - 20) _ (omega (arith, a.below)) same f))
