-- ===== src/Shell/Line.antt =====
-- kernel/shell.c: the command buffer as a line of text.
use tuple_os.Common.{
  ℕ, ◌+◌, ◌-◌, ◌≤◌, ◌<◌, ◌≡◌, ◌≢◌, refl, ap, ◌∙◌, true, false, arith, ltb, ◌==◌, if◌then◌else◌,
  List, [], ◌∷◌, ◌++◌, Option, none, some, update, u32_mod, Bool-cases, inl, inr,
}
use mathlib.Core.Path.{subst}
use mathlib.Core.Option.{some-injective}
use tuple_os.Format.{print_uint}
use tuple_os.Format.Digits.{print_uint_lem}
use tuple_os.Shell.{
  Shell, Command, help, clear, about, show_ticks, run_command, restart, execute_line, execute,
  restart_behind, show_digits, say, ticks_text, prompt, erase_key, type_key, handle_key,
  max_cmd_length,
}

-- The buffer from `i` on holds these characters, none of them NUL, and the command length ends them.
abbrev pub Holds : (ℕ → ℕ) → ℕ → List ℕ → ℕ → Type 0
Holds m i [] e = i ≡ e
Holds m i (c ∷ cs) e = (m i ≡ c) × (0 < c) × (c < 256) × Holds m (i + 1) cs e

-- The line that the user has typed is the text of the buffer, and it leaves room for the NUL.
abbrev pub IsLine : Shell → List ℕ → Type 0
IsLine s line = Holds s.buffer 0 line s.length × (s.length < max_cmd_length)

-- What a key other than the newline does to a line.
unfoldable pub drop_last : List ℕ → List ℕ
drop_last [] = []
drop_last (c ∷ []) = []
drop_last (c ∷ d ∷ cs) = c ∷ drop_last (d ∷ cs)

pub edit : ℕ → ℕ → List ℕ → List ℕ
edit c n line =
    if c == 8 then drop_last line else if ltb n (max_cmd_length - 1) then line ++ (c ∷ []) else line

pub Holds-le : (m : ℕ → ℕ) (i e : ℕ) (line : List ℕ) → Holds m i line e → i ≤ e
Holds-le m i e [] h = omega (arith, h)
Holds-le m i e (c ∷ cs) h = omega (arith, Holds-le m (i + 1) e cs h.3)

Holds-append :
    (m : ℕ → ℕ) (i e c : ℕ) (line : List ℕ)
    → Holds m i line e
    → 0 < c
    → c < 256
    → Holds (update m e c) i (line ++ (c ∷ [])) (e + 1)
Holds-append m i e c [] h pos byte = (ground (arith, h), pos, byte, omega (arith, h))
Holds-append m i e c (d ∷ ds) h pos byte = (
  ground (arith, h.0, Holds-le m (i + 1) e ds h.3),
  h.1,
  h.2,
  Holds-append m (i + 1) e c ds h.3 pos byte,
)

Holds-drop_last :
    (m : ℕ → ℕ) (i e d : ℕ) (line : List ℕ)
    → Holds m i (d ∷ line) e
    → Holds m i (drop_last (d ∷ line)) (e - 1)
unfolding drop_last
Holds-drop_last m i e d [] h = omega (arith, h.3)
Holds-drop_last m i e d (c ∷ cs) h = (h.0, h.1, h.2, Holds-drop_last m (i + 1) e c cs h.3)

erase_key-IsLine :
    (s : Shell) (line : List ℕ) → IsLine s line → IsLine (erase_key s) (drop_last line)
unfolding erase_key drop_last
erase_key-IsLine s [] h =
    let none_left : ltb 0 s.length ≡ false = ground (arith, h.0) in rw none_left h
erase_key-IsLine s (d ∷ ds) h =
    let some_left : ltb 0 s.length ≡ true = ground (arith, Holds-le s.buffer 1 s.length ds h.0.3) in
    rw some_left (Holds-drop_last s.buffer 0 s.length d ds h.0, omega (arith, h.1))

type_key-IsLine :
    (s : Shell) (c : ℕ) (line : List ℕ)
    → 0 < c
    → c < 256
    → IsLine s line
    → IsLine (type_key c s) (if ltb s.length (max_cmd_length - 1) then line ++ (c ∷ []) else line)
unfolding type_key
type_key-IsLine s c line pos byte h = elim (Bool-cases (ltb s.length (max_cmd_length - 1))) [
  | inl room ↦ rw room (Holds-append s.buffer 0 s.length c line h.0 pos byte, ground (arith, room))
  | inr full ↦ rw full h
]

-- A key other than the newline edits the line: the backspace takes its last character, any other key is
-- put behind it while there are fewer than 255 characters. The line stays free of NULs and leaves room
-- for the one that ends it.
pub handle_key-IsLine :
    (s : Shell) (c : ℕ) (line : List ℕ)
    → c ≢ 10
    → 0 < c
    → c < 256
    → IsLine s line
    → (s' : Shell) × (handle_key c s ≡ some s') × IsLine s' (edit c s.length line)
unfolding handle_key edit
handle_key-IsLine s c line other pos byte h = elim (Bool-cases (c == 8)) [
  | inl back ↦ (
    erase_key s,
    ground (arith, back, other),
    subst (IsLine (erase_key s)) (ground (arith, back)) (erase_key-IsLine s line h),
  )
  | inr key ↦ (
    type_key c s,
    ground (arith, key, other),
    subst (IsLine (type_key c s)) (ground (arith, key)) (type_key-IsLine s c line pos byte h),
  )
]

show_digits_runs :
    (o : Option (List ℕ)) (chars : List ℕ) (s : Shell)
    → o ≡ some chars
    → (s' : Shell) × (show_digits o s ≡ some s') × (s'.ticks ≡ s.ticks)
unfolding show_digits
show_digits_runs none chars s e = cc
show_digits_runs (some digits) chars s e = (_, refl, refl)

run_command_runs :
    (c : Command) (s : Shell)
    → s.ticks < u32_mod
    → (s' : Shell) × (run_command c s ≡ some s') × (s'.ticks ≡ s.ticks)
unfolding run_command
run_command_runs help s h = (_, refl, refl)
run_command_runs clear s h = (_, refl, refl)
run_command_runs about s h = (_, refl, refl)
run_command_runs show_ticks s h =
    let p = print_uint_lem s.ticks h in
    show_digits_runs (print_uint s.ticks) p.chars (say ticks_text s) p.runs

restart_behind_runs :
    (o : Option Shell) (s s' : Shell)
    → o ≡ some s'
    → s'.ticks ≡ s.ticks
    → (u : Shell) × (restart_behind o ≡ some u) × IsLine u [] × (u.ticks ≡ s.ticks)
unfolding restart_behind restart prompt
restart_behind_runs none s s' e t = cc
restart_behind_runs (some w) s s' e t =
    (_, refl, (refl, omega arith), ap (λ x. x.ticks) (some-injective _ _ e) ∙ t)

execute_line_runs :
    (o : Option Command) (s : Shell)
    → s.ticks < u32_mod
    → (s' : Shell) × (execute_line o s ≡ some s') × IsLine s' [] × (s'.ticks ≡ s.ticks)
unfolding execute_line restart prompt
execute_line_runs none s h = (_, refl, (refl, omega arith), refl)
execute_line_runs (some c) s h =
    let (s', e, t) = run_command_runs c s h in restart_behind_runs (run_command c s) s s' e t

-- The newline ends on any line: the shell answers with an empty line, the ticks as they were.
pub handle_key-newline :
    (s : Shell)
    → s.ticks < u32_mod
    → (s' : Shell) × (handle_key 10 s ≡ some s') × IsLine s' [] × (s'.ticks ≡ s.ticks)
unfolding handle_key execute
handle_key-newline s h = execute_line_runs _ _ h
