-- ===== src/Shell/Texts.antt =====
-- kernel/shell.c and kernel/keyboard.c: the messages of the shell and the scancode tables.
use tuple_os.Common.{ℕ, List, [], ◌∷◌}

abbrev pub welcome_text : List ℕ
welcome_text =
    b'W' ∷ b'e' ∷ b'l' ∷ b'c' ∷ b'o' ∷ b'm' ∷ b'e' ∷ b' ' ∷ b'T' ∷ b'o' ∷ b' ' ∷ b'T' ∷ b'h' ∷ b'e'
    ∷ b' ' ∷ b'T' ∷ b'u' ∷ b'p' ∷ b'l' ∷ b'e' ∷ b'O' ∷ b'S' ∷ b' ' ∷ b'S' ∷ b'h' ∷ b'e' ∷ b'l'
    ∷ b'l' ∷ 10 ∷ []

abbrev pub hint_text : List ℕ
hint_text =
    b'T' ∷ b'y' ∷ b'p' ∷ b'e' ∷ b' ' ∷ 39 ∷ b'h' ∷ b'e' ∷ b'l' ∷ b'p' ∷ 39 ∷ b' ' ∷ b'f' ∷ b'o'
    ∷ b'r' ∷ b' ' ∷ b'a' ∷ b' ' ∷ b'l' ∷ b'i' ∷ b's' ∷ b't' ∷ b' ' ∷ b'o' ∷ b'f' ∷ b' ' ∷ b'c'
    ∷ b'o' ∷ b'm' ∷ b'm' ∷ b'a' ∷ b'n' ∷ b'd' ∷ b's' ∷ 10 ∷ []

abbrev pub prompt_text : List ℕ
prompt_text = b'>' ∷ b' ' ∷ []

abbrev pub help_text : List ℕ
help_text =
    b'A' ∷ b'v' ∷ b'a' ∷ b'i' ∷ b'l' ∷ b'a' ∷ b'b' ∷ b'l' ∷ b'e' ∷ b' ' ∷ b'c' ∷ b'o' ∷ b'm' ∷ b'm'
    ∷ b'a' ∷ b'n' ∷ b'd' ∷ b's' ∷ b':' ∷ 10 ∷ b'h' ∷ b'e' ∷ b'l' ∷ b'p' ∷ b' ' ∷ b'-' ∷ b' ' ∷ b'S'
    ∷ b'h' ∷ b'o' ∷ b'w' ∷ b' ' ∷ b't' ∷ b'h' ∷ b'i' ∷ b's' ∷ b' ' ∷ b'm' ∷ b'e' ∷ b's' ∷ b's'
    ∷ b'a' ∷ b'g' ∷ b'e' ∷ 10 ∷ b'c' ∷ b'l' ∷ b'e' ∷ b'a' ∷ b'r' ∷ b' ' ∷ b'-' ∷ b' ' ∷ b'C' ∷ b'l'
    ∷ b'e' ∷ b'a' ∷ b'r' ∷ b' ' ∷ b't' ∷ b'h' ∷ b'e' ∷ b' ' ∷ b's' ∷ b'c' ∷ b'r' ∷ b'e' ∷ b'e'
    ∷ b'n' ∷ 10 ∷ b't' ∷ b'i' ∷ b'c' ∷ b'k' ∷ b's' ∷ b' ' ∷ b'-' ∷ b' ' ∷ b'S' ∷ b'h' ∷ b'o' ∷ b'w'
    ∷ b' ' ∷ b'n' ∷ b'u' ∷ b'm' ∷ b'b' ∷ b'e' ∷ b'r' ∷ b' ' ∷ b'o' ∷ b'f' ∷ b' ' ∷ b't' ∷ b'i'
    ∷ b'm' ∷ b'e' ∷ b'r' ∷ b' ' ∷ b't' ∷ b'i' ∷ b'c' ∷ b'k' ∷ b's' ∷ b' ' ∷ b's' ∷ b'i' ∷ b'n'
    ∷ b'c' ∷ b'e' ∷ b' ' ∷ b'b' ∷ b'o' ∷ b'o' ∷ b't' ∷ 10 ∷ b'a' ∷ b'b' ∷ b'o' ∷ b'u' ∷ b't' ∷ b' '
    ∷ b'-' ∷ b' ' ∷ b'A' ∷ b'b' ∷ b'o' ∷ b'u' ∷ b't' ∷ b' ' ∷ b'T' ∷ b'u' ∷ b'p' ∷ b'l' ∷ b'e'
    ∷ b'O' ∷ b'S' ∷ 10 ∷ []

abbrev pub about_text : List ℕ
about_text =
    b'T' ∷ b'u' ∷ b'p' ∷ b'l' ∷ b'e' ∷ b'O' ∷ b'S' ∷ b' ' ∷ b'v' ∷ b'0' ∷ b'.' ∷ b'1' ∷ 10 ∷ b'A'
    ∷ b' ' ∷ b's' ∷ b'i' ∷ b'm' ∷ b'p' ∷ b'l' ∷ b'e' ∷ b' ' ∷ b'h' ∷ b'o' ∷ b'b' ∷ b'b' ∷ b'y'
    ∷ b' ' ∷ b'O' ∷ b'S' ∷ b' ' ∷ b'w' ∷ b'r' ∷ b'i' ∷ b't' ∷ b't' ∷ b'e' ∷ b'n' ∷ b' ' ∷ b'i'
    ∷ b'n' ∷ b' ' ∷ b'C' ∷ 10 ∷ b'C' ∷ b'r' ∷ b'e' ∷ b'a' ∷ b't' ∷ b'e' ∷ b'd' ∷ b' ' ∷ b'b' ∷ b'y'
    ∷ b' ' ∷ b'A' ∷ b'a' ∷ b'r' ∷ b'o' ∷ b'n' ∷ b' ' ∷ b'G' ∷ b'r' ∷ b'a' ∷ b'n' ∷ b't' ∷ b' '
    ∷ b'a' ∷ b'n' ∷ b'd' ∷ b' ' ∷ b'V' ∷ b'a' ∷ b'l' ∷ b' ' ∷ b'P' ∷ b'e' ∷ b't' ∷ b'r' ∷ b'o'
    ∷ b'v' ∷ 10 ∷ []

abbrev pub ticks_text : List ℕ
ticks_text =
    b'T' ∷ b'i' ∷ b'c' ∷ b'k' ∷ b's' ∷ b' ' ∷ b's' ∷ b'i' ∷ b'n' ∷ b'c' ∷ b'e' ∷ b' ' ∷ b'b' ∷ b'o'
    ∷ b'o' ∷ b't' ∷ b':' ∷ b' ' ∷ []

abbrev pub unknown_text : List ℕ
unknown_text =
    b'U' ∷ b'n' ∷ b'k' ∷ b'n' ∷ b'o' ∷ b'w' ∷ b'n' ∷ b' ' ∷ b'c' ∷ b'o' ∷ b'm' ∷ b'm' ∷ b'a' ∷ b'n'
    ∷ b'd' ∷ b':' ∷ b' ' ∷ []

-- The entries behind the last one are 0.
abbrev pub scancode_to_ascii : List ℕ
scancode_to_ascii =
    0 ∷ 0 ∷ b'1' ∷ b'2' ∷ b'3' ∷ b'4' ∷ b'5' ∷ b'6' ∷ b'7' ∷ b'8' ∷ b'9' ∷ b'0' ∷ b'-' ∷ b'=' ∷ 8
    ∷ 9 ∷ b'q' ∷ b'w' ∷ b'e' ∷ b'r' ∷ b't' ∷ b'y' ∷ b'u' ∷ b'i' ∷ b'o' ∷ b'p' ∷ b'[' ∷ b']' ∷ 10 ∷ 0
    ∷ b'a' ∷ b's' ∷ b'd' ∷ b'f' ∷ b'g' ∷ b'h' ∷ b'j' ∷ b'k' ∷ b'l' ∷ b';' ∷ 39 ∷ b'`' ∷ 0 ∷ 92
    ∷ b'z' ∷ b'x' ∷ b'c' ∷ b'v' ∷ b'b' ∷ b'n' ∷ b'm' ∷ b',' ∷ b'.' ∷ b'/' ∷ 0 ∷ b'*' ∷ 0 ∷ b' ' ∷ 0
    ∷ 0 ∷ 0 ∷ 0 ∷ 0 ∷ 0 ∷ 0 ∷ 0 ∷ 0 ∷ 0 ∷ 0 ∷ 0 ∷ 0 ∷ b'7' ∷ b'8' ∷ b'9' ∷ b'-' ∷ b'4' ∷ b'5' ∷ b'6'
    ∷ b'+' ∷ b'1' ∷ b'2' ∷ b'3' ∷ b'0' ∷ b'.' ∷ 0 ∷ 0 ∷ 0 ∷ 0 ∷ 0 ∷ []

-- The entries behind the last one are 0.
abbrev pub scancode_to_ascii_shifted : List ℕ
scancode_to_ascii_shifted =
    0 ∷ 0 ∷ b'!' ∷ b'@' ∷ b'#' ∷ b'$' ∷ b'%' ∷ b'^' ∷ b'&' ∷ b'*' ∷ b'(' ∷ b')' ∷ b'_' ∷ b'+' ∷ 8
    ∷ 9 ∷ b'Q' ∷ b'W' ∷ b'E' ∷ b'R' ∷ b'T' ∷ b'Y' ∷ b'U' ∷ b'I' ∷ b'O' ∷ b'P' ∷ b'{' ∷ b'}' ∷ 10 ∷ 0
    ∷ b'A' ∷ b'S' ∷ b'D' ∷ b'F' ∷ b'G' ∷ b'H' ∷ b'J' ∷ b'K' ∷ b'L' ∷ b':' ∷ b'"' ∷ b'~' ∷ 0 ∷ b'|'
    ∷ b'Z' ∷ b'X' ∷ b'C' ∷ b'V' ∷ b'B' ∷ b'N' ∷ b'M' ∷ b'<' ∷ b'>' ∷ b'?' ∷ 0 ∷ b'*' ∷ 0 ∷ b' ' ∷ 0
    ∷ 0 ∷ 0 ∷ 0 ∷ 0 ∷ 0 ∷ 0 ∷ 0 ∷ 0 ∷ 0 ∷ 0 ∷ 0 ∷ 0 ∷ b'7' ∷ b'8' ∷ b'9' ∷ b'-' ∷ b'4' ∷ b'5' ∷ b'6'
    ∷ b'+' ∷ b'1' ∷ b'2' ∷ b'3' ∷ b'0' ∷ b'.' ∷ 0 ∷ 0 ∷ 0 ∷ 0 ∷ 0 ∷ []
