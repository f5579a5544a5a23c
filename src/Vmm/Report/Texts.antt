-- ===== src/Vmm/Report/Texts.antt =====
-- kernel/vmm.c: the formats of the region map and of the report on a page fault.
use tuple_os.Common.{ℕ, List, [], ◌∷◌}

abbrev pub map_begin_format : List ℕ
map_begin_format =
    b'V' ∷ b'M' ∷ b'M' ∷ b':' ∷ b' ' ∷ b'-' ∷ b'-' ∷ b'-' ∷ b' ' ∷ b'R' ∷ b'e' ∷ b'g' ∷ b'i' ∷ b'o'
    ∷ b'n' ∷ b' ' ∷ b'M' ∷ b'a' ∷ b'p' ∷ b' ' ∷ b'(' ∷ b'%' ∷ b'u' ∷ b' ' ∷ b'r' ∷ b'e' ∷ b'g'
    ∷ b'i' ∷ b'o' ∷ b'n' ∷ b's' ∷ b')' ∷ b' ' ∷ b'-' ∷ b'-' ∷ b'-' ∷ 10 ∷ []

abbrev pub region_format : List ℕ
region_format =
    b' ' ∷ b'0' ∷ b'x' ∷ b'%' ∷ b'x' ∷ b' ' ∷ b'-' ∷ b' ' ∷ b'0' ∷ b'x' ∷ b'%' ∷ b'x' ∷ b' ' ∷ b' '
    ∷ b'[' ∷ b'%' ∷ b's' ∷ b']' ∷ b' ' ∷ b'%' ∷ b's' ∷ b'%' ∷ b's' ∷ b'%' ∷ b's' ∷ 10 ∷ []

abbrev pub map_end_format : List ℕ
map_end_format =
    b'V' ∷ b'M' ∷ b'M' ∷ b':' ∷ b' ' ∷ b'-' ∷ b'-' ∷ b'-' ∷ b' ' ∷ b'E' ∷ b'n' ∷ b'd' ∷ b' ' ∷ b'R'
    ∷ b'e' ∷ b'g' ∷ b'i' ∷ b'o' ∷ b'n' ∷ b' ' ∷ b'M' ∷ b'a' ∷ b'p' ∷ b' ' ∷ b'-' ∷ b'-' ∷ b'-' ∷ 10
    ∷ []

abbrev pub fault_format : List ℕ
fault_format =
    10 ∷ b'!' ∷ b'!' ∷ b'!' ∷ b'!' ∷ b'!' ∷ b'!' ∷ b'!' ∷ b' ' ∷ b'P' ∷ b'A' ∷ b'G' ∷ b'E' ∷ b' '
    ∷ b'F' ∷ b'A' ∷ b'U' ∷ b'L' ∷ b'T' ∷ b' ' ∷ b'!' ∷ b'!' ∷ b'!' ∷ b'!' ∷ b'!' ∷ b'!' ∷ b'!'
    ∷ b'!' ∷ b'!' ∷ b'!' ∷ []

abbrev pub address_format : List ℕ
address_format =
    b'A' ∷ b'd' ∷ b'd' ∷ b'r' ∷ b'e' ∷ b's' ∷ b's' ∷ b':' ∷ b' ' ∷ b'0' ∷ b'x' ∷ b'%' ∷ b'x' ∷ 10
    ∷ []

abbrev pub error_format : List ℕ
error_format =
    b'E' ∷ b'r' ∷ b'r' ∷ b'o' ∷ b'r' ∷ b':' ∷ b' ' ∷ b'%' ∷ b's' ∷ b' ' ∷ b'%' ∷ b's' ∷ b' ' ∷ b'i'
    ∷ b'n' ∷ b' ' ∷ b'%' ∷ b's' ∷ b' ' ∷ b'm' ∷ b'o' ∷ b'd' ∷ b'e' ∷ 10 ∷ []

abbrev pub eip_format : List ℕ
eip_format =
    b'A' ∷ b't' ∷ b' ' ∷ b'E' ∷ b'I' ∷ b'P' ∷ b':' ∷ b' ' ∷ b'0' ∷ b'x' ∷ b'%' ∷ b'x' ∷ 10 ∷ []

abbrev pub serial_format : List ℕ
serial_format =
    b'P' ∷ b'A' ∷ b'G' ∷ b'E' ∷ b' ' ∷ b'F' ∷ b'A' ∷ b'U' ∷ b'L' ∷ b'T' ∷ b':' ∷ b' ' ∷ b'a' ∷ b'd'
    ∷ b'd' ∷ b'r' ∷ b'=' ∷ b'0' ∷ b'x' ∷ b'%' ∷ b'x' ∷ b' ' ∷ b'e' ∷ b'r' ∷ b'r' ∷ b'=' ∷ b'0'
    ∷ b'x' ∷ b'%' ∷ b'x' ∷ b' ' ∷ b'e' ∷ b'i' ∷ b'p' ∷ b'=' ∷ b'0' ∷ b'x' ∷ b'%' ∷ b'x' ∷ 10 ∷ []

abbrev pub in_region_format : List ℕ
in_region_format =
    b' ' ∷ b'-' ∷ b'>' ∷ b' ' ∷ b'A' ∷ b'd' ∷ b'd' ∷ b'r' ∷ b'e' ∷ b's' ∷ b's' ∷ b' ' ∷ b'i' ∷ b's'
    ∷ b' ' ∷ b'i' ∷ b'n' ∷ b' ' ∷ b'r' ∷ b'e' ∷ b'g' ∷ b'i' ∷ b'o' ∷ b'n' ∷ b':' ∷ b' ' ∷ b't'
    ∷ b'y' ∷ b'p' ∷ b'e' ∷ b'=' ∷ b'%' ∷ b'u' ∷ b',' ∷ b' ' ∷ b'b' ∷ b'a' ∷ b's' ∷ b'e' ∷ b'='
    ∷ b'0' ∷ b'x' ∷ b'%' ∷ b'x' ∷ b',' ∷ b' ' ∷ b's' ∷ b'i' ∷ b'z' ∷ b'e' ∷ b'=' ∷ b'0' ∷ b'x'
    ∷ b'%' ∷ b'x' ∷ 10 ∷ []

abbrev pub not_there_format : List ℕ
not_there_format =
    b' ' ∷ b'-' ∷ b'>' ∷ b' ' ∷ b'T' ∷ b'h' ∷ b'i' ∷ b's' ∷ b' ' ∷ b'r' ∷ b'e' ∷ b'g' ∷ b'i' ∷ b'o'
    ∷ b'n' ∷ b' ' ∷ b'e' ∷ b'x' ∷ b'i' ∷ b's' ∷ b't' ∷ b's' ∷ b' ' ∷ b'b' ∷ b'u' ∷ b't' ∷ b' '
    ∷ b'p' ∷ b'a' ∷ b'g' ∷ b'e' ∷ b' ' ∷ b'i' ∷ b's' ∷ b'n' ∷ 39 ∷ b't' ∷ b' ' ∷ b'p' ∷ b'r' ∷ b'e'
    ∷ b's' ∷ b'e' ∷ b'n' ∷ b't' ∷ 10 ∷ []

abbrev pub halting_format : List ℕ
halting_format =
    b' ' ∷ b'-' ∷ b'>' ∷ b' ' ∷ b'(' ∷ b'd' ∷ b'e' ∷ b'm' ∷ b'a' ∷ b'n' ∷ b'd' ∷ b' ' ∷ b'p' ∷ b'a'
    ∷ b'g' ∷ b'i' ∷ b'n' ∷ b'g' ∷ b' ' ∷ b'n' ∷ b'o' ∷ b't' ∷ b' ' ∷ b'i' ∷ b'm' ∷ b'p' ∷ b'l'
    ∷ b'e' ∷ b'm' ∷ b'e' ∷ b'n' ∷ b't' ∷ b'e' ∷ b'd' ∷ b' ' ∷ b'y' ∷ b'e' ∷ b't' ∷ b',' ∷ b' '
    ∷ b'h' ∷ b'a' ∷ b'l' ∷ b't' ∷ b'i' ∷ b'n' ∷ b'g' ∷ b')' ∷ 10 ∷ []

abbrev pub violation_format : List ℕ
violation_format =
    b' ' ∷ b'-' ∷ b'>' ∷ b' ' ∷ b'P' ∷ b'r' ∷ b'o' ∷ b't' ∷ b'e' ∷ b'c' ∷ b't' ∷ b'i' ∷ b'o' ∷ b'n'
    ∷ b' ' ∷ b'v' ∷ b'i' ∷ b'o' ∷ b'l' ∷ b'a' ∷ b't' ∷ b'i' ∷ b'o' ∷ b'n' ∷ b' ' ∷ b'i' ∷ b'n'
    ∷ b' ' ∷ b'r' ∷ b'e' ∷ b'g' ∷ b'i' ∷ b'o' ∷ b'n' ∷ b' ' ∷ b't' ∷ b'y' ∷ b'p' ∷ b'e' ∷ b'-'
    ∷ b'%' ∷ b'u' ∷ 10 ∷ []

abbrev pub read_only_format : List ℕ
read_only_format =
    b' ' ∷ b'-' ∷ b'>' ∷ b' ' ∷ b'W' ∷ b'r' ∷ b'i' ∷ b't' ∷ b'e' ∷ b' ' ∷ b't' ∷ b'o' ∷ b' ' ∷ b'r'
    ∷ b'e' ∷ b'a' ∷ b'd' ∷ b'-' ∷ b'o' ∷ b'n' ∷ b'l' ∷ b'y' ∷ b' ' ∷ b'r' ∷ b'e' ∷ b'g' ∷ b'i'
    ∷ b'o' ∷ b'n' ∷ 10 ∷ []

abbrev pub kernel_region_format : List ℕ
kernel_region_format =
    b' ' ∷ b'-' ∷ b'>' ∷ b' ' ∷ b'U' ∷ b's' ∷ b'e' ∷ b'r' ∷ b' ' ∷ b'a' ∷ b'c' ∷ b'c' ∷ b'e' ∷ b's'
    ∷ b's' ∷ b' ' ∷ b't' ∷ b'o' ∷ b' ' ∷ b'k' ∷ b'e' ∷ b'r' ∷ b'n' ∷ b'e' ∷ b'l' ∷ b' ' ∷ b'r'
    ∷ b'e' ∷ b'g' ∷ b'i' ∷ b'o' ∷ b'n' ∷ 10 ∷ []

abbrev pub segfault_format : List ℕ
segfault_format =
    b' ' ∷ b'-' ∷ b'>' ∷ b' ' ∷ b'A' ∷ b'd' ∷ b'd' ∷ b'r' ∷ b'e' ∷ b's' ∷ b's' ∷ b' ' ∷ b'n' ∷ b'o'
    ∷ b't' ∷ b' ' ∷ b'i' ∷ b'n' ∷ b' ' ∷ b'a' ∷ b'n' ∷ b'y' ∷ b' ' ∷ b'm' ∷ b'a' ∷ b'p' ∷ b'p'
    ∷ b'e' ∷ b'd' ∷ b' ' ∷ b'r' ∷ b'e' ∷ b'g' ∷ b'i' ∷ b'o' ∷ b'n' ∷ b' ' ∷ b'(' ∷ b's' ∷ b'e'
    ∷ b'g' ∷ b'f' ∷ b'a' ∷ b'u' ∷ b'l' ∷ b't' ∷ b')' ∷ 10 ∷ []

abbrev pub halted_format : List ℕ
halted_format =
    b'S' ∷ b'y' ∷ b's' ∷ b't' ∷ b'e' ∷ b'm' ∷ b' ' ∷ b'h' ∷ b'a' ∷ b'l' ∷ b't' ∷ b'e' ∷ b'd' ∷ b'.'
    ∷ 10 ∷ []

abbrev pub violation_text : List ℕ
violation_text =
    b'p' ∷ b'r' ∷ b'o' ∷ b't' ∷ b'e' ∷ b'c' ∷ b't' ∷ b'i' ∷ b'o' ∷ b'n' ∷ b' ' ∷ b'v' ∷ b'i' ∷ b'o'
    ∷ b'l' ∷ b'a' ∷ b't' ∷ b'i' ∷ b'o' ∷ b'n' ∷ []

abbrev pub not_present_text : List ℕ
not_present_text =
    b'p' ∷ b'a' ∷ b'g' ∷ b'e' ∷ b' ' ∷ b'n' ∷ b'o' ∷ b't' ∷ b' ' ∷ b'p' ∷ b'r' ∷ b'e' ∷ b's' ∷ b'e'
    ∷ b'n' ∷ b't' ∷ []

abbrev pub write_text : List ℕ
write_text = b'(' ∷ b'w' ∷ b'r' ∷ b'i' ∷ b't' ∷ b'e' ∷ b')' ∷ []

abbrev pub read_text : List ℕ
read_text = b'(' ∷ b'r' ∷ b'e' ∷ b'a' ∷ b'd' ∷ b')' ∷ []

abbrev pub user_text : List ℕ
user_text = b'u' ∷ b's' ∷ b'e' ∷ b'r' ∷ []

abbrev pub kernel_text : List ℕ
kernel_text = b'k' ∷ b'e' ∷ b'r' ∷ b'n' ∷ b'e' ∷ b'l' ∷ []
