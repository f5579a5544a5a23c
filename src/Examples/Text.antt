-- ===== src/Examples/Text.antt =====
-- The theorems on the screen and the printers at concrete states.
use tuple_os.Common.{ℕ, ◌%◌, ◌≡◌, ◌≤◌, refl, arith, List, [], ◌∷◌}
use tuple_os.Terminal.{Terminal, write}
use tuple_os.Terminal.Screen.{IsOnScreen, write-IsOnScreen}
use tuple_os.Format.Ends.{Ends, accepts, takes, behind_word, behind_text, printf_total}
use tuple_os.Format.{word, text, kprintf, serial_printf}
use tuple_os.Format.Printers.{is_plain, shown, printers_agree}

-- The cursor is in the third row.
abbrev pub screen : Terminal
screen = record { row = 2; column = 5; color = 7; buffer = λ j. j % 256; cursor = 165 }

write-IsOnScreen_example :
    IsOnScreen (write (b'a' ∷ b'b' ∷ []) 2 screen)
    × ((j : ℕ) → 2000 ≤ j → (write (b'a' ∷ b'b' ∷ []) 2 screen).buffer j ≡ screen.buffer j)
write-IsOnScreen_example = write-IsOnScreen (b'a' ∷ b'b' ∷ []) 2 screen (omega arith, omega arith)

-- "PID %u\n"
abbrev pid_format : List ℕ
pid_format = b'P' ∷ b'I' ∷ b'D' ∷ b' ' ∷ b'%' ∷ b'u' ∷ 10 ∷ []

printers_agree_example :
    kprintf pid_format (word 12 ∷ []) screen
    ≡ shown (serial_printf pid_format (word 12 ∷ []) []) screen
unfolding is_plain
printers_agree_example = printers_agree pid_format (word 12 ∷ []) screen refl

printf_total_example :
    Ends
      (kprintf (b'%' ∷ b'u' ∷ b'%' ∷ b's' ∷ 10 ∷ []) (word 42 ∷ text (b'h' ∷ []) ∷ []) screen)
      (serial_printf (b'%' ∷ b'u' ∷ b'%' ∷ b's' ∷ 10 ∷ []) (word 42 ∷ text (b'h' ∷ []) ∷ []) [])
unfolding accepts takes behind_word behind_text
printf_total_example =
    printf_total (b'%' ∷ b'u' ∷ b'%' ∷ b's' ∷ 10 ∷ []) (word 42 ∷ text (b'h' ∷ []) ∷ []) screen []
      refl (omega arith, tt)
