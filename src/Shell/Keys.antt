-- ===== src/Shell/Keys.antt =====
-- kernel/keyboard.c: what a scancode does to the command line.
use tuple_os.Common.{
  ◌⊎◌, ◌↔◌, update, ◌+◌, ℕ, zero, suc, ◌≤◌, ◌<◌, ◌≡◌, ◌≢◌, refl, sym, ap, ◌∙◌, Bool, true, false,
  arith, ltb, leb, ◌==◌, ◌&&◌, ◌||◌, if◌then◌else◌, List, [], ◌∷◌, Option, some, get_or, u32_mod,
  Bool-cases, inl, inr, leb→le, ==_iff,
}
use native.Mathlib.Decide.{ℕ_discrete}
use mathlib.Core.Path.{subst}
use tuple_os.Shell.{
  execute, Shell, Command, command_name, find_command, commands, execute_line, scancode_to_ascii,
  scancode_to_ascii_shifted, keyboard_handler, handle_key,
}
use tuple_os.Shell.Choice.{find_command_iff}
use tuple_os.Terminal
use tuple_os.Shell.Line.{IsLine, Holds, Holds-le, edit, handle_key-IsLine, handle_key-newline}

all_bytes : List ℕ → Bool
all_bytes [] = true
all_bytes (c ∷ cs) = ltb c 256 && all_bytes cs

get_or-byte : (xs : List ℕ) (i : ℕ) → all_bytes xs ≡ true → get_or xs i 0 < 256
unfolding all_bytes
get_or-byte [] i e = omega arith
get_or-byte (c ∷ cs) zero e = ground (arith, e)
get_or-byte (c ∷ cs) (suc i) e = get_or-byte cs i (ground (arith, e))

-- The character of a key.
abbrev pub key_char : Bool → ℕ → ℕ
key_char shift_held scancode =
    if shift_held
    then get_or scancode_to_ascii_shifted scancode 0
    else get_or scancode_to_ascii scancode 0

key_char-byte : (shift_held : Bool) (scancode : ℕ) → key_char shift_held scancode < 256
unfolding all_bytes
key_char-byte true scancode = get_or-byte scancode_to_ascii_shifted scancode refl
key_char-byte false scancode = get_or-byte scancode_to_ascii scancode refl

-- The scancodes of the shift keys, pressed and released.
abbrev pub is_shift_down : ℕ → Bool
is_shift_down scancode = (scancode == 0x2a) || (scancode == 0x36)

abbrev pub is_shift_up : ℕ → Bool
is_shift_up scancode = (scancode == 0xaa) || (scancode == 0xb6)

-- The command that a line names, if any.
abbrev pub Chosen : List ℕ → Option Command → Type 0
Chosen line choice = (c : Command) → (choice ≡ some c) ↔ (line ≡ command_name c)

-- The shell when the newline is on the screen and the line has its NUL.
abbrev pub entered : Shell → Shell
entered s = record s {
  terminal = Terminal.putchar 10 s.terminal;
  buffer = update s.buffer s.length 0;
}

-- Where a scancode takes the shell: the shift keys set and clear the shift state, other releases and keys
-- without a character do nothing, the newline runs the command that the line names, or says that there is
-- none, and clears the line, and any other key edits it.
pub data Pressed (s : Shell) (line : List ℕ) (scancode : ℕ) : Option Shell → Type 0 where
  shift_down :
      is_shift_down scancode ≡ true
      → Pressed s line scancode (some (record s { shift_held = true }))
  shift_up :
      is_shift_up scancode ≡ true → Pressed s line scancode (some (record s { shift_held = false }))
  ignored :
      is_shift_down scancode ≡ false
      → is_shift_up scancode ≡ false
      → (128 ≤ scancode) ⊎ (key_char s.shift_held scancode ≡ 0)
      → Pressed s line scancode (some s)
  ran :
      {s' : Shell}
      → key_char s.shift_held scancode ≡ 10
      → (choice : Option Command) → Chosen line choice
      → execute_line choice (entered s) ≡ some s'
      → IsLine s' []
      → Pressed s line scancode (some s')
  edited :
      {s' : Shell}
      → key_char s.shift_held scancode ≢ 10
      → IsLine s' (edit (key_char s.shift_held scancode) s.length line)
      → Pressed s line scancode (some s')

Holds-closed :
    (m : ℕ → ℕ) (i e : ℕ) (line : List ℕ) → Holds m i line e → Holds (update m e 0) i line e
Holds-closed m i e [] h = h
Holds-closed m i e (c ∷ cs) h =
    (ground (arith, h.0, Holds-le m (i + 1) e cs h.3), h.1, h.2, Holds-closed m (i + 1) e cs h.3)

entered-Chosen :
    (s : Shell) (line : List ℕ)
    → IsLine s line
    → Chosen line (find_command (entered s).buffer commands)
entered-Chosen s line h c =
    find_command_iff (entered s).buffer s.length line c (Holds-closed s.buffer 0 s.length line h.0)
      (ground arith)

newline_lem :
    (s : Shell)
    → handle_key 10 s ≡ execute_line (find_command (entered s).buffer commands) (entered s)
unfolding handle_key execute
newline_lem s = refl

key-Pressed :
    (s : Shell) (line : List ℕ) (scancode : ℕ)
    → s.ticks < u32_mod
    → IsLine s line
    → key_char s.shift_held scancode ≢ 0
    → Pressed s line scancode (handle_key (key_char s.shift_held scancode) s)
key-Pressed s line scancode t h n = elim (ℕ_discrete (key_char s.shift_held scancode) 10) [
  | yes newline ↦
      let (s', e, l, k) = handle_key-newline s t in
      subst (Pressed s line scancode) (sym (ap (λ c. handle_key c s) newline ∙ e)) (
        ran newline (find_command (entered s).buffer commands) (entered-Chosen s line h)
          (sym (newline_lem s) ∙ e) l)
  | no other ↦
      let (s', e, l) =
        handle_key-IsLine s (key_char s.shift_held scancode) line other (omega (arith, n))
          (key_char-byte s.shift_held scancode) h in
      subst (Pressed s line scancode) (sym e) (edited other l)
]

differs : (a b : ℕ) → (a == b) ≡ false → a ≢ b
differs a b e = ground arith

-- Every scancode that the controller gives ends on any line, in one of five ways: a shift key pressed sets the
-- shift state, and one released clears it; another release or a key without a character does nothing; the
-- newline runs the command that the line names, or reports that none has its name, and leaves an empty
-- line; any other key leaves the line edited by its character.
pub keyboard_handler-Pressed :
    (s : Shell) (line : List ℕ) (scancode : ℕ)
    → s.ticks < u32_mod
    → IsLine s line
    → Pressed s line scancode (keyboard_handler scancode s)
unfolding keyboard_handler
keyboard_handler-Pressed s line scancode t h =
    elim (Bool-cases ((scancode == 0x2a) || (scancode == 0x36))) [
      | inl down ↦ rw (down, keyboard_handler) (shift_down down)
      | inr not_down ↦ elim (Bool-cases ((scancode == 0xaa) || (scancode == 0xb6))) [
        | inl up ↦ rw (not_down, up, keyboard_handler) (shift_up up)
        | inr not_up ↦ elim (Bool-cases (leb 128 scancode)) [
          | inl release ↦
              rw (not_down, not_up, release, keyboard_handler)
                (ignored not_down not_up (inl (leb→le 128 scancode release)))
          | inr press ↦ elim (Bool-cases (key_char s.shift_held scancode == 0)) [
            | inl no_char ↦
                rw (not_down, not_up, press, no_char, keyboard_handler)
                  (ignored not_down not_up (inr ((==_iff _ 0).0 no_char)))
            | inr char ↦
                rw (not_down, not_up, press, char, keyboard_handler)
                  (key-Pressed s line scancode t h (differs _ 0 char))
          ]
        ]
      ]
    ]
