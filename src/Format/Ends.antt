-- ===== src/Format/Ends.antt =====
-- kernel/kprintf.c and serial.c: the formats on which the printers end.
use tuple_os.Common.{
  ℕ, ◌<◌, ◌≡◌, refl, sym, ap, ◌∙◌, Bool, true, false, not, ◌&&◌, arith, ltb, ◌==◌, ◌||◌,
  if◌then◌else◌, inl, inr, Bool-cases, List, [], ◌∷◌, ◌++◌, Option, none, some, u32_mod,
}
use mathlib.Core.Path.{subst}
use mathlib.Core.Bool.{false≢true}
use mathlib.Core.Option.{some-injective}
use tuple_os.Terminal
use tuple_os.Terminal.{Terminal}
use tuple_os.Format.{
  Arg, word, text, directive, kprintf, serial_directive, serial_printf, put_all, put_word, put_text,
  send_word, send_text, print_number, serial_print_number, put_number, send_number, serial_putchar,
  serial_writestring, Call, kprintf_all,
}
use tuple_os.Format.Printers.{both, serial_print_number_lem}
use tuple_os.Format.Digits.{print_uint_lem, print_hex_lem, print_int_lem}

-- The arguments behind a word, and behind a string.
unfoldable pub behind_word : List Arg → Option (List Arg)
behind_word [] = none
behind_word (word n ∷ rest) = some rest
behind_word (text str ∷ rest) = none

unfoldable pub behind_text : List Arg → Option (List Arg)
behind_text [] = none
behind_text (word n ∷ rest) = none
behind_text (text str ∷ rest) = some rest

abbrev pub is_number : ℕ → Bool
is_number d = (d == b'd') || (d == b'u') || (d == b'x')

-- The words among the arguments are below 2 ^ 32.
abbrev pub Sized : List Arg → Type 0
Sized [] = Unit {0}
Sized (word n ∷ rest) = (n < u32_mod) × Sized rest
Sized (text str ∷ rest) = Sized rest

-- The arguments that are left behind a `%` and this letter; none where its argument is missing or is of
-- the other kind.
unfoldable pub takes : ℕ → List Arg → Option (List Arg)
takes d args =
    if is_number d then behind_word args else if d == b's' then behind_text args else some args

-- No lone `%` ends the format, and every letter behind a `%` finds its argument.
unfoldable pub accepts : List ℕ → List Arg → Bool
accepts [] args = true
accepts (c ∷ []) args = not (c == b'%')
accepts (c ∷ d ∷ cs) args = elim (c == b'%') [
  | true ↦ elim (takes d args) [ none ↦ false | some rest ↦ accepts cs rest ]
  | false ↦ accepts (d ∷ cs) args
]

number_ends : (d n : ℕ) → n < u32_mod → (chars : List ℕ) × (print_number d n ≡ some chars)
unfolding print_number
number_ends d n small = elim (Bool-cases (d == b'd')) [
  | inl e ↦
      let x = print_int_lem n small in ((if ltb n 0x8000_0000 then x.0 else b'-' ∷ x.0), rw e x.1)
  | inr e ↦ elim (Bool-cases (d == b'u')) [
    | inl u ↦ let x = print_uint_lem n small in (x.chars, rw (e, u) x.runs)
    | inr u ↦ let x = print_hex_lem n small in (x.chars, rw (e, u) x.runs)
  ]
]

-- What the two printers do with an argument: both answer, and leave these arguments.
abbrev Leave : List Arg → Option (List Arg × Terminal) → Option (List Arg × List ℕ) → Type 0
Leave rest shown sent =
    ((t' : Terminal) × (shown ≡ some (rest, t'))) × ((sent' : List ℕ) × (sent ≡ some (rest, sent')))

number_Leave :
    (rest : List Arg) (printed : Option (List ℕ)) (chars : List ℕ) (t : Terminal) (sent : List ℕ)
    → printed ≡ some chars
    → Leave rest (put_number rest printed t) (send_number rest printed sent)
number_Leave rest none chars t sent e = cc
number_Leave rest (some c) chars t sent e = ((put_all c t, refl), (sent ++ c, refl))

word_Leave :
    (d : ℕ) (args rest : List Arg) (t : Terminal) (sent : List ℕ)
    → Sized args
    → behind_word args ≡ some rest
    → Leave rest (put_word d args t) (send_word d args sent) × Sized rest
unfolding behind_word
word_Leave d [] rest t sent z e = cc
word_Leave d (text str ∷ args) rest t sent z e = cc
word_Leave d (word n ∷ args) rest t sent z e =
    let x = number_ends d n z.0 in
    subst
      (λ a.
        Leave a (put_number args (print_number d n) t)
          (send_number args (serial_print_number d n) sent)
        × Sized a)
      (some-injective _ _ e)
      (
        subst (λ s. Leave args (put_number args (print_number d n) t) (send_number args s sent))
            (sym (serial_print_number_lem d n))
            (number_Leave args (print_number d n) x.0 t sent x.1),
        z.1,
      )

text_Leave :
    (args rest : List Arg) (t : Terminal) (sent : List ℕ)
    → Sized args
    → behind_text args ≡ some rest
    → Leave rest (put_text args t) (send_text args sent) × Sized rest
unfolding behind_text
text_Leave [] rest t sent z e = cc
text_Leave (word n ∷ args) rest t sent z e = cc
text_Leave (text str ∷ args) rest t sent z e =
    subst (λ a. Leave a (put_text (text str ∷ args) t) (send_text (text str ∷ args) sent) × Sized a)
      (some-injective _ _ e)
      (((Terminal.writestring str t, refl), (serial_writestring str sent, refl)), z)

directive-Leave :
    (d : ℕ) (args rest : List Arg) (t : Terminal) (sent : List ℕ)
    → Sized args
    → takes d args ≡ some rest
    → Leave rest (directive d args t) (serial_directive d args sent) × Sized rest
unfolding takes directive serial_directive
directive-Leave d args rest t sent z e = elim (Bool-cases (is_number d)) [
  | inl number ↦ rw number (word_Leave d args rest t sent z (sym (rw number refl) ∙ e))
  | inr other ↦ elim (Bool-cases (d == b's')) [
    | inl string ↦
        rw (other, string) (text_Leave args rest t sent z (sym (rw (other, string) refl) ∙ e))
    | inr letter ↦
        let same : args ≡ rest = some-injective _ _ (sym (rw (other, letter) refl) ∙ e) in
        rw (other, letter)
          (elim (Bool-cases (d == b'%')) [
            | inl p ↦ rw p (
              (
                (_, ap (λ a. some (a, Terminal.putchar d (Terminal.putchar b'%' t))) same),
                (_, ap (λ a. some (a, serial_putchar b'%' sent)) same),
              ),
              subst Sized same z,
            )
            | inr p ↦ rw p (
              (
                (_, ap (λ a. some (a, t)) same),
                (_, ap (λ a. some (a, serial_putchar d (serial_putchar b'%' sent))) same),
              ),
              subst Sized same z,
            )
          ])
  ]
]

abbrev accepts_rest : Option (List Arg) → List ℕ → Bool
accepts_rest o cs = elim o [ none ↦ false | some rest ↦ accepts cs rest ]

abbrev pub Ends : Option Terminal → Option (List ℕ) → Type 0
Ends shown sent = ((t' : Terminal) × (shown ≡ some t')) × ((sent' : List ℕ) × (sent ≡ some sent'))

-- Where every letter behind a `%` finds its argument, a 32-bit word or a string, and no lone `%` ends the
-- format, both printers end.
pub printf_total :
    (format : List ℕ) (args : List Arg) (t : Terminal) (sent : List ℕ)
    → accepts format args ≡ true
    → Sized args
    → Ends (kprintf format args t) (serial_printf format args sent)
unfolding accepts kprintf serial_printf
printf_total [] args t sent e z = ((t, refl), (sent, refl))
printf_total (c ∷ []) args t sent e z = elim (Bool-cases (c == b'%')) [
  | inl is ↦ absurd (ground (arith, is, e))
  | inr isnt ↦ rw isnt ((_, refl), (_, refl))
]
printf_total (c ∷ d ∷ cs) args t sent e z = elim (Bool-cases (c == b'%')) [
  | inl is ↦
      let left : accepts_rest (takes d args) cs ≡ true = sym (rw (is, accepts) refl) ∙ e in
      (elim (takes d args)
          as (λ o.
            takes d args ≡ o
            → accepts_rest o cs ≡ true
            → Ends (kprintf (c ∷ d ∷ cs) args t) (serial_printf (c ∷ d ∷ cs) args sent)) [
              | none ↦ λ q h. absurd (false≢true h)
              | some r ↦ λ q h.
                  let x = directive-Leave d args r t sent z q in
                  rw (is, kprintf, serial_printf, x.0.0.1, x.0.1.1)
                    (printf_total cs r x.0.0.0 x.0.1.0 h x.1)
            ])
        refl left
  | inr isnt ↦
      rw (isnt, kprintf, serial_printf)
        (printf_total (d ∷ cs) args _ _ (sym (rw (isnt, accepts) refl) ∙ e) z)
]

-- Every call of these fits.
unfoldable pub accepts_all : List Call → Bool
accepts_all [] = true
accepts_all ((format, args) ∷ calls) = accepts format args && accepts_all calls

abbrev pub SizedAll : List Call → Type 0
SizedAll [] = Unit {0}
SizedAll (call ∷ calls) = Sized call.1 × SizedAll calls

pub kprintf_all_ends :
    (calls : List Call) (t : Terminal)
    → accepts_all calls ≡ true
    → SizedAll calls
    → (t' : Terminal) × (kprintf_all calls t ≡ some t')
unfolding kprintf_all accepts_all
kprintf_all_ends [] t e z = (t, refl)
kprintf_all_ends ((format, args) ∷ calls) t e z =
    let parts = both (accepts format args) (accepts_all calls) e in
    let first = printf_total format args t [] parts.0 z.0 in
    let others = kprintf_all_ends calls first.0.0 parts.1 z.1 in
    (others.0, rw (first.0.1, kprintf_all) others.1)
