-- ===== src/Format/Printers.antt =====
-- kernel/kprintf.c and serial.c: the two format printers side by side.
use tuple_os.Common.{
  ℕ, zero, suc, ◌-◌, ◌/◌, if◌then◌else◌, u32_mod, ◌≡◌, refl, sym, ap, ◌∙◌, Bool, true, false, not,
  arith, ◌==◌, ◌&&◌, ◌||◌, inl, inr, Bool-cases, List, [], ◌∷◌, ◌++◌, Option, none, some,
}
use mathlib.Core.Bool.{false≢true}
use tuple_os.Terminal
use tuple_os.Terminal.{Terminal}
use tuple_os.Format.{
  Arg, word, text, put_all, directive, kprintf, serial_putchar, serial_writestring,
  serial_directive, serial_printf, put_number, put_word, put_text, send_number, send_word,
  send_text, serial_decimals, serial_nibbles, collect, decimal_digit, hex_digit, serial_print_uint,
  print_uint, serial_print_int, print_int, serial_print_hex, print_hex, serial_print_number,
  print_number, fuel,
}

put_all-append : (xs ys : List ℕ) (t : Terminal) → put_all (xs ++ ys) t ≡ put_all ys (put_all xs t)
unfolding put_all
put_all-append [] ys t = refl
put_all-append (x ∷ xs) ys t = put_all-append xs ys (Terminal.putchar x t)

put_all-serial_putchar :
    (c : ℕ) (sent : List ℕ) (t : Terminal)
    → put_all (serial_putchar c sent) t ≡ Terminal.putchar c (put_all sent t)
unfolding put_all serial_putchar
put_all-serial_putchar c sent t = put_all-append sent (c ∷ []) t

put_all-serial_writestring :
    (str : List ℕ) (sent : List ℕ) (t : Terminal)
    → put_all (serial_writestring str sent) t ≡ Terminal.writestring str (put_all sent t)
unfolding serial_writestring Terminal.writestring Terminal.strlen Terminal.write
put_all-serial_writestring [] sent t = refl
put_all-serial_writestring (c ∷ cs) sent t = elim (Bool-cases (c == 0)) [
  | inl e ↦ rw e refl
  | inr e ↦ rw e (
      put_all-serial_writestring cs (serial_putchar c sent) t
      ∙ ap (Terminal.writestring cs) (put_all-serial_putchar c sent t))
]

-- Every `%` of the format stands before one of `d`, `u`, `x` and `s`.
unfoldable pub is_plain : List ℕ → Bool
is_plain [] = true
is_plain (c ∷ []) = not (c == b'%')
is_plain (c ∷ d ∷ cs) = elim (c == b'%') [
  | true ↦ ((d == b'd') || (d == b'u') || (d == b'x') || (d == b's')) && is_plain cs
  | false ↦ is_plain (d ∷ cs)
]

-- What the serial line got, shown on a screen.
abbrev pub shown : Option (List ℕ) → Terminal → Option Terminal
shown none t = none
shown (some sent) t = some (put_all sent t)

abbrev shown_step : Option (List Arg × List ℕ) → Terminal → Option (List Arg × Terminal)
shown_step none t = none
shown_step (some (args, sent)) t = some (args, put_all sent t)

serial_decimals_lem :
    (n num : ℕ) (buffer : List ℕ)
    → serial_decimals n num buffer ≡ collect n 10 decimal_digit num buffer
unfolding serial_decimals collect
serial_decimals_lem zero num buffer = refl
serial_decimals_lem (suc n) num buffer =
    ap (λ r. if num == 0 then some buffer else r) (serial_decimals_lem n (num / 10) _)

serial_nibbles_lem :
    (n num : ℕ) (buffer : List ℕ) → serial_nibbles n num buffer ≡ collect n 16 hex_digit num buffer
unfolding serial_nibbles collect hex_digit
serial_nibbles_lem zero num buffer = refl
serial_nibbles_lem (suc n) num buffer =
    ap (λ r. if num == 0 then some buffer else r) (serial_nibbles_lem n (num / 16) _)

serial_print_uint_lem : (num : ℕ) → serial_print_uint num ≡ print_uint num
unfolding serial_print_uint print_uint
serial_print_uint_lem num =
    ap (λ r. if num == 0 then some (b'0' ∷ []) else r) (serial_decimals_lem fuel num [])

serial_print_hex_lem : (num : ℕ) → serial_print_hex num ≡ print_hex num
unfolding serial_print_hex print_hex
serial_print_hex_lem num =
    ap (λ r. if num == 0 then some (b'0' ∷ []) else r) (serial_nibbles_lem fuel num [])

serial_print_int_lem : (num : ℕ) → serial_print_int num ≡ print_int num
unfolding serial_print_int print_int
serial_print_int_lem num =
    rw (serial_print_uint_lem num, serial_print_uint_lem (u32_mod - num)) refl

-- The two files print numbers alike.
pub serial_print_number_lem : (d n : ℕ) → serial_print_number d n ≡ print_number d n
unfolding serial_print_number print_number
serial_print_number_lem d n =
    rw (serial_print_uint_lem n, serial_print_int_lem n, serial_print_hex_lem n) refl

number_shown :
    (rest : List Arg) (printed : Option (List ℕ)) (sent : List ℕ) (t : Terminal)
    → put_number rest printed (put_all sent t) ≡ shown_step (send_number rest printed sent) t
number_shown rest none sent t = refl
number_shown rest (some chars) sent t = ap (λ u. some (rest, u)) (sym (put_all-append sent chars t))

word_shown :
    (d : ℕ) (args : List Arg) (sent : List ℕ) (t : Terminal)
    → put_word d args (put_all sent t) ≡ shown_step (send_word d args sent) t
word_shown d [] sent t = refl
word_shown d (word n ∷ rest) sent t =
    rw (serial_print_number_lem d n) (number_shown rest (print_number d n) sent t)
word_shown d (text str ∷ rest) sent t = refl

text_shown :
    (args : List Arg) (sent : List ℕ) (t : Terminal)
    → put_text args (put_all sent t) ≡ shown_step (send_text args sent) t
text_shown [] sent t = refl
text_shown (word n ∷ rest) sent t = refl
text_shown (text str ∷ rest) sent t =
    ap (λ u. some (rest, u)) (sym (put_all-serial_writestring str sent t))

directive_shown :
    (d : ℕ) (args : List Arg) (sent : List ℕ) (t : Terminal)
    → (d == b'd') || (d == b'u') || (d == b'x') || (d == b's') ≡ true
    → directive d args (put_all sent t) ≡ shown_step (serial_directive d args sent) t
unfolding directive serial_directive
directive_shown d args sent t e = elim (Bool-cases ((d == b'd') || (d == b'u') || (d == b'x'))) [
  | inl number ↦ rw number (word_shown d args sent t)
  | inr other ↦
      let string : (d == b's') ≡ true = ground (arith, other, e) in
      rw (other, string) (text_shown args sent t)
]

pub both : (a b : Bool) → a && b ≡ true → (a ≡ true) × (b ≡ true)
both true true e = (refl, refl)
both true false e = absurd (false≢true e)
both false b e = absurd (false≢true e)

printers_agree_from :
    (format : List ℕ) (args : List Arg) (sent : List ℕ) (t : Terminal)
    → is_plain format ≡ true
    → kprintf format args (put_all sent t) ≡ shown (serial_printf format args sent) t
unfolding kprintf serial_printf is_plain
printers_agree_from [] args sent t e = refl
printers_agree_from (c ∷ []) args sent t e = elim (Bool-cases (c == b'%')) [
  | inl is ↦ absurd (ground (arith, is, e))
  | inr isnt ↦ rw isnt (ap some (sym (put_all-serial_putchar c sent t)))
]
printers_agree_from (c ∷ d ∷ cs) args sent t e = elim (Bool-cases (c == b'%')) [
  | inl is ↦
      let plain : ((d == b'd') || (d == b'u') || (d == b'x') || (d == b's')) && is_plain cs ≡ true =
        ground (arith, is, e) in
      let parts = both _ _ plain in
      rw (is, kprintf, serial_printf, directive_shown d args sent t parts.0)
        (elim (serial_directive d args sent)
          as (λ r.
            elim (shown_step r t) [ none ↦ none | some (args', t') ↦ kprintf cs args' t' ]
            ≡ shown (elim r [ none ↦ none | some (args', sent') ↦ serial_printf cs args' sent' ])
                t) [
                  | none ↦ refl
                  | some (args', sent') ↦ printers_agree_from cs args' sent' t parts.1
                ])
  | inr isnt ↦
      let plain : is_plain (d ∷ cs) ≡ true = ground (arith, isnt, e) in
      rw (isnt, kprintf, serial_printf)
        (ap (kprintf (d ∷ cs) args) (sym (put_all-serial_putchar c sent t))
          ∙ printers_agree_from (d ∷ cs) args (serial_putchar c sent) t plain)
]

-- On a format whose every `%` stands before `d`, `u`, `x` or `s`, `kprintf` shows on the screen exactly the
-- characters that `serial_printf` sends, and answers where it answers.
pub printers_agree :
    (format : List ℕ) (args : List Arg) (t : Terminal)
    → is_plain format ≡ true
    → kprintf format args t ≡ shown (serial_printf format args []) t
unfolding put_all
printers_agree format args t e = printers_agree_from format args [] t e
