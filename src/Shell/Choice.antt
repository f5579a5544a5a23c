-- ===== src/Shell/Choice.antt =====
-- kernel/shell.c: the choice of the command by the line.
use tuple_os.Common.{
  ℕ, ◌+◌, ◌<◌, ◌≡◌, ◌≢◌, refl, sym, ap, ◌∙◌, arith, ◌==◌, if◌then◌else◌, List, [], ◌∷◌, Option,
  none, some, sub32, Bool-cases, inl, inr, ◌↔◌,
}
use native.Mathlib.Decide.{ℕ_discrete}
use mathlib.Core.Path.{subst}
use mathlib.Core.Option.{some-injective}
use tuple_os.Shell.{
  Command, help, clear, about, show_ticks, strcmp, command_name, find_command, commands,
}
use tuple_os.Shell.Line.{Holds}

-- The characters of a name, none of them NUL.
abbrev IsName : List ℕ → Type 0
IsName [] = Unit {0}
IsName (c ∷ cs) = (0 < c) × (c < 256) × IsName cs

tail_of : List ℕ → List ℕ
tail_of [] = []
tail_of (c ∷ cs) = cs

head_of : List ℕ → ℕ
head_of [] = 0
head_of (c ∷ cs) = c

-- `strcmp` gives 0 exactly for the line itself.
strcmp_iff :
    (m : ℕ → ℕ) (i e : ℕ) (line name : List ℕ)
    → Holds m i line e
    → m e ≡ 0
    → IsName name
    → (strcmp m i name ≡ 0) ↔ (line ≡ name)
unfolding strcmp head_of tail_of
strcmp_iff m i e [] [] h z n = (λ x. refl, λ x. ap m h ∙ z)
strcmp_iff m i e [] (c ∷ cs) h z n =
    let empty : m i ≡ 0 = ap m h ∙ z in
    (λ x. absurd (ground (arith, n.0, n.1)), λ x. absurd (ground (arith, ap head_of x, n.0)))
strcmp_iff m i e (d ∷ ds) [] h z n =
    (λ x. absurd (ground (arith, h.0, h.1)), λ x. absurd (ground (arith, ap head_of x, h.1)))
strcmp_iff m i e (d ∷ ds) (c ∷ cs) h z n =
    let rest = strcmp_iff m (i + 1) e ds cs h.3 z n.2 in
    elim (ℕ_discrete d c) [
      | yes same ↦
          let step : strcmp m i (c ∷ cs) ≡ strcmp m (i + 1) cs = ground (arith, h.0, h.1, same) in
          (
            λ x. rw same (ap (λ l. c ∷ l) (rest.0 (sym step ∙ x))),
            λ x. step ∙ rest.1 (ap tail_of x),
          )
      | no differ ↦
          let step : strcmp m i (c ∷ cs) ≡ sub32 d c = ground (arith, h.0, h.1, differ) in
          (
            λ x. absurd (omega (arith, step, x, h.2, n.1, differ)),
            λ x. absurd (differ (ap head_of x)),
          )
    ]

command_name-IsName : (c : Command) → IsName (command_name c)
unfolding command_name
command_name-IsName help = (
  omega arith,
  omega arith,
  (omega arith, omega arith, (omega arith, omega arith, (omega arith, omega arith, tt))),
)
command_name-IsName clear = (
  omega arith,
  omega arith,
  (
    omega arith,
    omega arith,
    (omega arith, omega arith, (omega arith, omega arith, (omega arith, omega arith, tt))),
  ),
)
command_name-IsName about = (
  omega arith,
  omega arith,
  (
    omega arith,
    omega arith,
    (omega arith, omega arith, (omega arith, omega arith, (omega arith, omega arith, tt))),
  ),
)
command_name-IsName show_ticks = (
  omega arith,
  omega arith,
  (
    omega arith,
    omega arith,
    (omega arith, omega arith, (omega arith, omega arith, (omega arith, omega arith, tt))),
  ),
)

-- The commands differ in their first letters.
first_letter : Command → ℕ
first_letter c = head_of (command_name c)

by_letter : ℕ → Command
by_letter n =
    if n == b'h' then help else if n == b'c' then clear else if n == b'a' then about else show_ticks

by_first_letter : (c : Command) → by_letter (first_letter c) ≡ c
unfolding by_letter first_letter command_name head_of
by_first_letter help = refl
by_first_letter clear = refl
by_first_letter about = refl
by_first_letter show_ticks = refl

command_name-injective : (c d : Command) → command_name c ≡ command_name d → c ≡ d
unfolding first_letter
command_name-injective c d e =
    sym (by_first_letter c) ∙ ap (λ l. by_letter (head_of l)) e ∙ by_first_letter d

find_command_sound :
    (m : ℕ → ℕ) (cs : List Command) (c : Command)
    → find_command m cs ≡ some c
    → strcmp m 0 (command_name c) ≡ 0
unfolding find_command
find_command_sound m [] c e = cc
find_command_sound m (d ∷ ds) c e = elim (Bool-cases (strcmp m 0 (command_name d) == 0)) [
  | inl hit ↦
      let same : d ≡ c = some-injective _ _ (ground (arith, hit, e)) in
      subst (λ x. strcmp m 0 (command_name x) ≡ 0) same (ground (arith, hit))
  | inr miss ↦ find_command_sound m ds c (ground (arith, miss, e))
]

find_command-none :
    (m : ℕ → ℕ) (c : Command) → find_command m commands ≡ none → strcmp m 0 (command_name c) ≢ 0
unfolding find_command
find_command-none m help e = ground (arith, e)
find_command-none m clear e = ground (arith, e)
find_command-none m about e = ground (arith, e)
find_command-none m show_ticks e = ground (arith, e)

-- On a buffer that holds a line and its NUL, the loop over `commands` finds a command exactly when the
-- line is its name.
pub find_command_iff :
    (m : ℕ → ℕ) (e : ℕ) (line : List ℕ) (c : Command)
    → Holds m 0 line e
    → m e ≡ 0
    → (find_command m commands ≡ some c) ↔ (line ≡ command_name c)
find_command_iff m e line c h z = (
  λ x.
      (strcmp_iff m 0 e line (command_name c) h z (command_name-IsName c)).0
        (find_command_sound m commands c x),
  λ x. found x (find_command m commands) refl,
)
  where
    found : line ≡ command_name c → (o : Option Command) → find_command m commands ≡ o → o ≡ some c
    found x none r = absurd (
        find_command-none m c r
          ((strcmp_iff m 0 e line (command_name c) h z (command_name-IsName c)).1 x))
    found x (some d) r =
        let hit : line ≡ command_name d =
          (strcmp_iff m 0 e line (command_name d) h z (command_name-IsName d)).0
            (find_command_sound m commands d r) in
        ap some (command_name-injective d c (sym hit ∙ x))
