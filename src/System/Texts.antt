-- ===== src/System/Texts.antt =====
-- kernel/kernel.c: the messages of `kernel_main`.
use tuple_os.Common.{ℕ, List, [], ◌∷◌}

abbrev pub serial_ready_format : List ℕ
serial_ready_format =
    b'S' ∷ b'e' ∷ b'r' ∷ b'i' ∷ b'a' ∷ b'l' ∷ b' ' ∷ b'p' ∷ b'o' ∷ b'r' ∷ b't' ∷ b' ' ∷ b'i' ∷ b'n'
    ∷ b'i' ∷ b't' ∷ b'i' ∷ b'a' ∷ b'l' ∷ b'i' ∷ b'z' ∷ b'e' ∷ b'd' ∷ 10 ∷ []

abbrev pub serial_ticks_format : List ℕ
serial_ticks_format =
    b'T' ∷ b'i' ∷ b'm' ∷ b'e' ∷ b'r' ∷ b' ' ∷ b't' ∷ b'i' ∷ b'c' ∷ b'k' ∷ b's' ∷ b':' ∷ b' ' ∷ b'%'
    ∷ b'u' ∷ 10 ∷ []

abbrev pub gdt_begin_text : List ℕ
gdt_begin_text =
    b'I' ∷ b'n' ∷ b'i' ∷ b't' ∷ b'a' ∷ b'l' ∷ b'i' ∷ b'z' ∷ b'i' ∷ b'n' ∷ b'g' ∷ b' ' ∷ b'G' ∷ b'D'
    ∷ b'T' ∷ 10 ∷ []

abbrev pub gdt_end_text : List ℕ
gdt_end_text =
    b'G' ∷ b'D' ∷ b'T' ∷ b' ' ∷ b'I' ∷ b'n' ∷ b'i' ∷ b't' ∷ b'i' ∷ b'a' ∷ b'l' ∷ b'i' ∷ b'z' ∷ b'e'
    ∷ b'd' ∷ 10 ∷ []

abbrev pub idt_begin_text : List ℕ
idt_begin_text =
    b'I' ∷ b'n' ∷ b'i' ∷ b't' ∷ b'a' ∷ b'l' ∷ b'i' ∷ b'z' ∷ b'i' ∷ b'n' ∷ b'g' ∷ b' ' ∷ b'I' ∷ b'D'
    ∷ b'T' ∷ 10 ∷ []

abbrev pub idt_end_text : List ℕ
idt_end_text =
    b'I' ∷ b'D' ∷ b'T' ∷ b' ' ∷ b'I' ∷ b'n' ∷ b'i' ∷ b't' ∷ b'i' ∷ b'a' ∷ b'l' ∷ b'i' ∷ b'z' ∷ b'e'
    ∷ b'd' ∷ 10 ∷ []

abbrev pub keyboard_begin_text : List ℕ
keyboard_begin_text =
    b'I' ∷ b'n' ∷ b'i' ∷ b't' ∷ b'i' ∷ b'a' ∷ b'l' ∷ b'i' ∷ b'z' ∷ b'i' ∷ b'n' ∷ b'g' ∷ b' ' ∷ b'K'
    ∷ b'e' ∷ b'y' ∷ b'b' ∷ b'o' ∷ b'a' ∷ b'r' ∷ b'd' ∷ 10 ∷ []

abbrev pub keyboard_end_text : List ℕ
keyboard_end_text =
    b'K' ∷ b'e' ∷ b'y' ∷ b'b' ∷ b'o' ∷ b'a' ∷ b'r' ∷ b'd' ∷ b' ' ∷ b'I' ∷ b'n' ∷ b'i' ∷ b't' ∷ b'i'
    ∷ b'a' ∷ b'l' ∷ b'i' ∷ b'z' ∷ b'e' ∷ b'd' ∷ 10 ∷ []

abbrev pub complete_text : List ℕ
complete_text =
    b'K' ∷ b'e' ∷ b'r' ∷ b'n' ∷ b'e' ∷ b'l' ∷ b' ' ∷ b'i' ∷ b'n' ∷ b'i' ∷ b't' ∷ b'i' ∷ b'a' ∷ b'l'
    ∷ b'i' ∷ b'z' ∷ b'a' ∷ b't' ∷ b'i' ∷ b'o' ∷ b'n' ∷ b' ' ∷ b'c' ∷ b'o' ∷ b'm' ∷ b'p' ∷ b'l'
    ∷ b'e' ∷ b't' ∷ b'e' ∷ b'!' ∷ 10 ∷ []

abbrev pub timer_format : List ℕ
timer_format =
    b'T' ∷ b'i' ∷ b'm' ∷ b'e' ∷ b'r' ∷ b' ' ∷ b'i' ∷ b'n' ∷ b'i' ∷ b't' ∷ b'i' ∷ b'a' ∷ b'l' ∷ b'i'
    ∷ b'z' ∷ b'e' ∷ b'd' ∷ b' ' ∷ b'a' ∷ b't' ∷ b' ' ∷ b'1' ∷ b'0' ∷ b'0' ∷ b' ' ∷ b'H' ∷ b'z' ∷ 10
    ∷ []

abbrev pub bad_magic_format : List ℕ
bad_magic_format =
    b'E' ∷ b'R' ∷ b'R' ∷ b'O' ∷ b'R' ∷ b':' ∷ b' ' ∷ b'I' ∷ b'n' ∷ b'v' ∷ b'a' ∷ b'l' ∷ b'i' ∷ b'd'
    ∷ b' ' ∷ b'm' ∷ b'u' ∷ b'l' ∷ b't' ∷ b'i' ∷ b'b' ∷ b'o' ∷ b'o' ∷ b't' ∷ b' ' ∷ b'm' ∷ b'a'
    ∷ b'g' ∷ b'i' ∷ b'c' ∷ b':' ∷ b' ' ∷ b'0' ∷ b'x' ∷ b'%' ∷ b'x' ∷ 10 ∷ []

abbrev pub magic_format : List ℕ
magic_format =
    b'M' ∷ b'u' ∷ b'l' ∷ b't' ∷ b'i' ∷ b'b' ∷ b'o' ∷ b'o' ∷ b't' ∷ b' ' ∷ b'm' ∷ b'a' ∷ b'g' ∷ b'i'
    ∷ b'c' ∷ b' ' ∷ b'O' ∷ b'K' ∷ b':' ∷ b' ' ∷ b'0' ∷ b'x' ∷ b'%' ∷ b'x' ∷ 10 ∷ []

abbrev pub heap_format : List ℕ
heap_format =
    b'H' ∷ b'e' ∷ b'a' ∷ b'p' ∷ b' ' ∷ b'u' ∷ b's' ∷ b'e' ∷ b'd' ∷ b':' ∷ b' ' ∷ b'%' ∷ b'u' ∷ b' '
    ∷ b'K' ∷ b'B' ∷ b',' ∷ b' ' ∷ b'f' ∷ b'r' ∷ b'e' ∷ b'e' ∷ b':' ∷ b' ' ∷ b'%' ∷ b'u' ∷ b' '
    ∷ b'K' ∷ b'B' ∷ 10 ∷ []

abbrev pub memory_format : List ℕ
memory_format =
    b'F' ∷ b'r' ∷ b'e' ∷ b'e' ∷ b' ' ∷ b'm' ∷ b'e' ∷ b'm' ∷ b'o' ∷ b'r' ∷ b'y' ∷ b':' ∷ b' ' ∷ b'%'
    ∷ b'u' ∷ b' ' ∷ b'K' ∷ b'B' ∷ 10 ∷ []

abbrev pub welcome_format : List ℕ
welcome_format =
    b'W' ∷ b'e' ∷ b'l' ∷ b'c' ∷ b'o' ∷ b'm' ∷ b'e' ∷ b' ' ∷ b't' ∷ b'o' ∷ b' ' ∷ b'T' ∷ b'u' ∷ b'p'
    ∷ b'l' ∷ b'e' ∷ b'O' ∷ b'S' ∷ b'!' ∷ 10 ∷ []

abbrev pub thread_a_name : List ℕ
thread_a_name = b't' ∷ b'h' ∷ b'r' ∷ b'e' ∷ b'a' ∷ b'd' ∷ b'_' ∷ b'a' ∷ []

abbrev pub thread_b_name : List ℕ
thread_b_name = b't' ∷ b'h' ∷ b'r' ∷ b'e' ∷ b'a' ∷ b'd' ∷ b'_' ∷ b'b' ∷ []

abbrev pub thread_a_format : List ℕ
thread_a_format = b'A' ∷ []

abbrev pub thread_b_format : List ℕ
thread_b_format = b'B' ∷ []
