-- ===== src/Examples/Keys.antt =====
-- The theorems on kernel/shell.c and kernel/keyboard.c at a concrete command line.
use tuple_os.Common.{ℕ, ◌≡◌, refl, arith, false, some, List, [], ◌∷◌, ◌==◌, if◌then◌else◌}
use tuple_os.Shell.{Shell, handle_key, keyboard_handler}
use tuple_os.Shell.Line.{IsLine, edit, handle_key-IsLine}
use tuple_os.Shell.Keys.{Pressed, keyboard_handler-Pressed}

abbrev pub help_line : List ℕ
help_line = b'h' ∷ b'e' ∷ b'l' ∷ b'p' ∷ []

-- The user has typed "help".
abbrev pub shell : Shell
shell = record {
  buffer = λ i.
      if i == 0
      then b'h'
      else if i == 1
      then b'e'
      else if i == 2
      then b'l'
      else if i == 3
      then b'p'
      else 0;
  length = 4;
  terminal = record { row = 2; column = 6; color = 7; buffer = λ j. 0; cursor = 166 };
  ticks = 1234;
  shift_held = false;
}

pub shell-IsLine : IsLine shell help_line
shell-IsLine = (
  (
    refl,
    omega arith,
    omega arith,
    (
      refl,
      omega arith,
      omega arith,
      (refl, omega arith, omega arith, (refl, omega arith, omega arith, refl)),
    ),
  ),
  omega arith,
)

handle_key-IsLine_example :
    (s' : Shell) × (handle_key b's' shell ≡ some s') × IsLine s' (edit b's' 4 help_line)
handle_key-IsLine_example =
    handle_key-IsLine shell b's' help_line (λ e. omega (arith, e)) (omega arith) (omega arith)
      shell-IsLine

-- The return key.
keyboard_handler-Pressed_example : Pressed shell help_line 0x1c (keyboard_handler 0x1c shell)
keyboard_handler-Pressed_example =
    keyboard_handler-Pressed shell help_line 0x1c (omega arith) shell-IsLine
