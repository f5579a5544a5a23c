-- ===== src/System/Dispatch.antt =====
-- `interrupt_handler` of kernel/idt.c with the handlers of the timer and the keyboard, against the interrupt
-- controllers.
use tuple_os.Common.{
  ℕ, ◌≡◌, ◌<◌, refl, ap, ◌∙◌, false, arith, List, [], ◌∷◌, ◌++◌, Option, some, none, u32_mod, add32,
}
use mathlib.Core.Path.{subst}
use tuple_os.Scheduler.Rotation.{IsRunning}
use tuple_os.Shell.{Shell}
use tuple_os.Shell.Line.{IsLine}
use tuple_os.Shell.Keys.{
  Pressed, shift_down, shift_up, ignored, ran, edited, keyboard_handler-Pressed,
}
use tuple_os.Interrupts.{Writes, InterruptFrame, keyboard, outb, acknowledge}
use tuple_os.Interrupts.Controllers.{Pics, run, raise, write, command}
use tuple_os.System.{System, Inputs, interrupt_handler, call_handler, handle, finish, switched}

-- The writes `new` that stand in the log before those of `old`, the later ones first, take the controllers
-- from `p` to `q`.
pub record Wrote (old log : Writes) (p q : Pics) : Type 0 where
  pub new : Writes
  pub log_is : log ≡ new ++ old
  pub effect : run new p ≡ q

-- What a timer interrupt leaves, on controllers `p` with nothing in service when it came.
pub record Ticked (s : System) (p : Pics) (s' : System) : Type 0 where
  pub ticks : s'.shell.ticks ≡ add32 s.shell.ticks 1
  pub running : (n : ℕ) × IsRunning s'.kernel n
  pub ended : Wrote s.writes s'.writes (raise 0 p) p
  pub resumed : Wrote s'.writes (finish 32 s').writes p p

Pressed-answers :
    (s : Shell) (line : List ℕ) (scancode : ℕ) (o : Option Shell)
    → Pressed s line scancode o
    → (s' : Shell) × (o ≡ some s')
Pressed-answers s line scancode _ (shift_down key) = (_, refl)
Pressed-answers s line scancode _ (shift_up key) = (_, refl)
Pressed-answers s line scancode _ (ignored x y why) = (_, refl)
Pressed-answers s line scancode _ (ran key choice chosen done end) = (_, refl)
Pressed-answers s line scancode _ (edited key line_is) = (_, refl)

switched_same : (c : Option ℕ) → switched c c ≡ false
unfolding switched
switched_same none = refl
switched_same (some c) = ground arith

-- On a running system whose buffer holds a command line, a keyboard interrupt ends: its scancode does to the
-- command line what its key asks for, no process is touched, and what `interrupt_handler` has written takes
-- the controllers, with line 1 in service, back to what they were before the interrupt.
pub keyboard_interrupt :
    (x : Inputs) (frame : InterruptFrame) (s : System) (p : Pics) (line : List ℕ)
    → frame.interrupt_number ≡ 33
    → s.idt.handlers 33 ≡ some keyboard
    → s.halted ≡ false
    → s.shell.ticks < u32_mod
    → IsLine s.shell line
    → (s' : System) × (interrupt_handler x frame s ≡ some s')
      × Pressed s.shell line x.scancode (some s'.shell)
      × (s'.kernel ≡ s.kernel)
      × Wrote s.writes s'.writes (raise 1 p) p
unfolding interrupt_handler call_handler handle finish acknowledge outb run raise write command
keyboard_interrupt x frame s p line number registered going small line' =
    let pressed = keyboard_handler-Pressed s.shell line x.scancode small line' in
    let (shell, answer) = Pressed-answers s.shell line x.scancode _ pressed in
    let called : s.idt.handlers frame.interrupt_number ≡ some keyboard =
      ap s.idt.handlers number ∙ registered in
    (
      record s { shell = shell; writes = acknowledge 33 s.writes },
      rw (called, interrupt_handler, answer, switched_same s.kernel.current, going, number) refl,
      subst (Pressed s.shell line x.scancode) answer pressed,
      refl,
      record { new = (0x20, 0x20) ∷ []; log_is = refl; effect = refl },
    )
