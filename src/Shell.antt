-- ===== src/Shell.antt =====
-- kernel/shell.c and kernel/keyboard.c: the command line and the keys that reach it.
mod Texts
pub mod Line
pub mod Choice
pub mod Keys
pub use Texts.{
  welcome_text, hint_text, prompt_text, help_text, about_text, ticks_text, unknown_text,
  scancode_to_ascii, scancode_to_ascii_shifted,
}
use tuple_os.Common.{
  ℕ, zero, suc, ◌+◌, ◌-◌, ◌/◌, Bool, true, false, ltb, leb, ◌==◌, ◌&&◌, ◌||◌, not, if◌then◌else◌,
  List, [], ◌∷◌, ◌++◌, Option, none, some, update, sub32, get_or,
}
use tuple_os.Terminal
use tuple_os.Terminal.{Terminal}
use tuple_os.Format

-- The statics of shell.c and `shift_held` of keyboard.c, with the screen and the ticks of timer.c.
pub record Shell : Type 0 where
  pub buffer : ℕ → ℕ
  pub length : ℕ
  pub terminal : Terminal
  pub ticks : ℕ
  pub shift_held : Bool

abbrev pub max_cmd_length : ℕ
max_cmd_length = 256

-- `strcmp` of the buffer from `i` on with a string.
unfoldable pub strcmp : (ℕ → ℕ) → ℕ → List ℕ → ℕ
strcmp s1 i [] = s1 i
strcmp s1 i (c ∷ cs) =
    let rest = strcmp s1 (i + 1) cs in
    if not (s1 i == 0) && (s1 i == c) then rest else sub32 (s1 i) c

-- The characters of the buffer from `i` on up to its NUL, `n` at most.
unfoldable pub buffer_text : ℕ → ℕ → (ℕ → ℕ) → List ℕ
buffer_text zero i s = []
buffer_text (suc n) i s = let rest = buffer_text n (i + 1) s in if s i == 0 then [] else s i ∷ rest

-- What `terminal_writestring` of the shell's messages writes.
abbrev pub say : List ℕ → Shell → Shell
say text s = record s { terminal = Terminal.writestring text s.terminal }

abbrev pub put : ℕ → Shell → Shell
put c s = record s { terminal = Terminal.putchar c s.terminal }

unfoldable pub prompt : Shell → Shell
prompt s = say prompt_text s

-- The four entries of `commands`.
pub data Command : Type 0 where
  help clear about show_ticks : Command

unfoldable pub command_name : Command → List ℕ
command_name help = b'h' ∷ b'e' ∷ b'l' ∷ b'p' ∷ []
command_name clear = b'c' ∷ b'l' ∷ b'e' ∷ b'a' ∷ b'r' ∷ []
command_name about = b'a' ∷ b'b' ∷ b'o' ∷ b'u' ∷ b't' ∷ []
command_name show_ticks = b't' ∷ b'i' ∷ b'c' ∷ b'k' ∷ b's' ∷ []

-- The loop over `commands`: the first entry whose name compares equal.
unfoldable pub find_command : (ℕ → ℕ) → List Command → Option Command
find_command s [] = none
find_command s (c ∷ cs) =
    let rest = find_command s cs in if strcmp s 0 (command_name c) == 0 then some c else rest

abbrev pub commands : List Command
commands = help ∷ clear ∷ about ∷ show_ticks ∷ []

-- The digits and the newline of `cmd_ticks`; `none`: the number would not print.
unfoldable pub show_digits : Option (List ℕ) → Shell → Option Shell
show_digits none s = none
show_digits (some digits) s =
    some (put 10 (record s { terminal = Format.put_all digits s.terminal }))

-- The functions of the four commands.
unfoldable pub run_command : Command → Shell → Option Shell
run_command help s = some (say help_text s)
run_command clear s = some (record s { terminal = Terminal.initialize s.terminal })
run_command about s = some (say about_text s)
run_command show_ticks s = show_digits (Format.print_uint s.ticks) (say ticks_text s)

unfoldable pub init : Shell → Shell
init s = prompt (say hint_text (say welcome_text s))

-- `cmd_length = 0; shell_prompt();`
unfoldable pub restart : Shell → Shell
restart s = prompt (record s { length = 0 })

unfoldable pub restart_behind : Option Shell → Option Shell
restart_behind none = none
restart_behind (some s) = some (restart s)

-- `shell_execute` behind its search for the command.
unfoldable pub execute_line : Option Command → Shell → Option Shell
execute_line none s =
    some (restart (put 10 (say (buffer_text s.length 0 s.buffer) (say unknown_text s))))
execute_line (some c) s = restart_behind (run_command c s)

unfoldable pub execute : Shell → Option Shell
execute s =
    let closed = record s { buffer = update s.buffer s.length 0 } in
    execute_line (find_command closed.buffer commands) closed

unfoldable pub erase_key : Shell → Shell
erase_key s = if ltb 0 s.length then put 8 (record s { length = s.length - 1 }) else s

unfoldable pub type_key : ℕ → Shell → Shell
type_key c s =
    if ltb s.length (max_cmd_length - 1)
    then put c (record s { buffer = update s.buffer s.length c; length = s.length + 1 })
    else s

unfoldable pub handle_key : ℕ → Shell → Option Shell
handle_key c s =
    if c == 10
    then execute (put 10 s)
    else if c == 8
    then some (erase_key s)
    else some (type_key c s)

-- `keyboard_handler` for the scancode that the controller gives, a byte.
unfoldable pub keyboard_handler : ℕ → Shell → Option Shell
keyboard_handler scancode s =
    if (scancode == 0x2a) || (scancode == 0x36)
    then some (record s { shift_held = true })
    else if (scancode == 0xaa) || (scancode == 0xb6)
    then some (record s { shift_held = false })
    else if leb 128 scancode
    then some s
    else let c =
        if s.shift_held
        then get_or scancode_to_ascii_shifted scancode 0
        else get_or scancode_to_ascii scancode 0 in
      if c == 0 then some s else handle_key c s
