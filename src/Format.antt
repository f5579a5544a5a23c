-- ===== src/Format.antt =====
-- kernel/kprintf.c, serial.c and `terminal_print_int` of kernel.c: numbers and formats as characters.
pub mod Digits
pub mod Printers
pub mod Ends
use tuple_os.Common.{
  ℕ, zero, suc, ◌+◌, ◌-◌, ◌*◌, ◌/◌, ◌%◌, Bool, true, false, ltb, ◌==◌, if◌then◌else◌, List, [], ◌∷◌,
  Option, none, some, u32_mod, length, bit_and, ◌++◌, ◌||◌,
}
use tuple_os.Terminal
use tuple_os.Terminal.{Terminal}

-- `'0' + (num % 10)`
abbrev pub decimal_digit : ℕ → ℕ
decimal_digit num = b'0' + num % 10

-- `(digit < 10) ? ('0' + digit) : ('A' + digit - 10)`, `digit = num & 0xF`
unfoldable pub hex_digit : ℕ → ℕ
hex_digit num =
    let digit = bit_and num 0xf in if ltb digit 10 then b'0' + digit else b'A' + digit - 10

-- The loops that fill `buffer`: the characters in the order in which the loop behind prints them; `none`:
-- the fuel ran out.
unfoldable pub collect : ℕ → ℕ → (ℕ → ℕ) → ℕ → List ℕ → Option (List ℕ)
collect zero base digit num buffer = none
collect (suc n) base digit num buffer =
    let rest = collect n base digit (num / base) (digit num ∷ buffer) in
    if num == 0 then some buffer else rest

-- A number below 2 ^ 32 has at most 32 digits in base two or more, and one round more ends the loop.
abbrev pub fuel : ℕ
fuel = 33

-- What `print_uint` and `terminal_print_int` print.
unfoldable pub print_uint : ℕ → Option (List ℕ)
print_uint num = if num == 0 then some (b'0' ∷ []) else collect fuel 10 decimal_digit num []

-- `num < 0` for an `int32_t`; the negation of the least one is itself.
unfoldable pub print_int : ℕ → Option (List ℕ)
print_int num =
    if ltb num 0x8000_0000
    then print_uint num
    else elim (print_uint (u32_mod - num)) [ none ↦ none | some chars ↦ some (b'-' ∷ chars) ]

unfoldable pub print_hex : ℕ → Option (List ℕ)
print_hex num = if num == 0 then some (b'0' ∷ []) else collect fuel 16 hex_digit num []

-- An argument of a format: a 32-bit word or a pointer to a string.
pub data Arg : Type 0 where
  word : ℕ → Arg
  text : List ℕ → Arg

-- `putchar` of every character in turn.
unfoldable pub put_all : List ℕ → Terminal → Terminal
put_all [] t = t
put_all (c ∷ cs) t = put_all cs (Terminal.putchar c t)

-- The cases `d`, `u` and `x` of `kprintf`.
unfoldable pub print_number : ℕ → ℕ → Option (List ℕ)
print_number d n =
    if d == b'd' then print_int n else if d == b'u' then print_uint n else print_hex n

abbrev pub put_number : List Arg → Option (List ℕ) → Terminal → Option (List Arg × Terminal)
put_number rest none t = none
put_number rest (some chars) t = some (rest, put_all chars t)

-- `va_arg(args, uint32_t)`; `none`: the argument is missing or a string, for which C promises nothing.
abbrev pub put_word : ℕ → List Arg → Terminal → Option (List Arg × Terminal)
put_word d [] t = none
put_word d (word n ∷ rest) t = put_number rest (print_number d n) t
put_word d (text str ∷ rest) t = none

abbrev pub put_text : List Arg → Terminal → Option (List Arg × Terminal)
put_text [] t = none
put_text (word n ∷ rest) t = none
put_text (text str ∷ rest) t = some (rest, Terminal.writestring str t)

-- The `switch` of `kprintf` behind a `%`.
unfoldable pub directive : ℕ → List Arg → Terminal → Option (List Arg × Terminal)
directive d args t =
    if (d == b'd') || (d == b'u') || (d == b'x')
    then put_word d args t
    else if d == b's'
    then put_text args t
    else if d == b'%'
    then some (args, Terminal.putchar d (Terminal.putchar b'%' t))
    else some (args, t)

-- `kprintf` on the characters of a format; `none` where it reads behind the format's NUL, as for a last
-- `%`, or where `directive` does.
unfoldable pub kprintf : List ℕ → List Arg → Terminal → Option Terminal
kprintf [] args t = some t
kprintf (c ∷ []) args t = if c == b'%' then none else some (Terminal.putchar c t)
kprintf (c ∷ d ∷ cs) args t = elim (c == b'%') [
  | true ↦ elim (directive d args t) [ none ↦ none | some (args', t') ↦ kprintf cs args' t' ]
  | false ↦ kprintf (d ∷ cs) args (Terminal.putchar c t)
]

-- `serial_putchar`, with the characters sent to COM1 so far, once the port is ready.
unfoldable pub serial_putchar : ℕ → List ℕ → List ℕ
serial_putchar c sent = sent ++ (c ∷ [])

unfoldable pub serial_writestring : List ℕ → List ℕ → List ℕ
serial_writestring [] sent = sent
serial_writestring (c ∷ cs) sent =
    let rest = serial_writestring cs (serial_putchar c sent) in if c == 0 then sent else rest

-- The digits that `serial_print_uint` puts into its buffer, in the order in which it sends them; `none`: the
-- fuel ran out.
unfoldable pub serial_decimals : ℕ → ℕ → List ℕ → Option (List ℕ)
serial_decimals zero num buffer = none
serial_decimals (suc n) num buffer =
    let rest = serial_decimals n (num / 10) ((b'0' + num % 10) ∷ buffer) in
    if num == 0 then some buffer else rest

unfoldable pub serial_print_uint : ℕ → Option (List ℕ)
serial_print_uint num = if num == 0 then some (b'0' ∷ []) else serial_decimals fuel num []

unfoldable pub serial_print_int : ℕ → Option (List ℕ)
serial_print_int num =
    if ltb num 0x8000_0000
    then serial_print_uint num
    else elim (serial_print_uint (u32_mod - num)) [ none ↦ none | some chars ↦ some (b'-' ∷ chars) ]

-- The loop of `serial_print_hex`.
unfoldable pub serial_nibbles : ℕ → ℕ → List ℕ → Option (List ℕ)
serial_nibbles zero num buffer = none
serial_nibbles (suc n) num buffer =
    let digit = bit_and num 0xf in
    let char = if ltb digit 10 then b'0' + digit else b'A' + digit - 10 in
    let rest = serial_nibbles n (num / 16) (char ∷ buffer) in if num == 0 then some buffer else rest

unfoldable pub serial_print_hex : ℕ → Option (List ℕ)
serial_print_hex num = if num == 0 then some (b'0' ∷ []) else serial_nibbles fuel num []

-- The cases `d`, `u` and `x` of `serial_printf`.
unfoldable pub serial_print_number : ℕ → ℕ → Option (List ℕ)
serial_print_number d n =
    if d == b'd'
    then serial_print_int n
    else if d == b'u'
    then serial_print_uint n
    else serial_print_hex n

abbrev pub send_number : List Arg → Option (List ℕ) → List ℕ → Option (List Arg × List ℕ)
send_number rest none sent = none
send_number rest (some chars) sent = some (rest, sent ++ chars)

abbrev pub send_word : ℕ → List Arg → List ℕ → Option (List Arg × List ℕ)
send_word d [] sent = none
send_word d (word n ∷ rest) sent = send_number rest (serial_print_number d n) sent
send_word d (text str ∷ rest) sent = none

abbrev pub send_text : List Arg → List ℕ → Option (List Arg × List ℕ)
send_text [] sent = none
send_text (word n ∷ rest) sent = none
send_text (text str ∷ rest) sent = some (rest, serial_writestring str sent)

-- The `switch` of `serial_printf`.
unfoldable pub serial_directive : ℕ → List Arg → List ℕ → Option (List Arg × List ℕ)
serial_directive d args sent =
    if (d == b'd') || (d == b'u') || (d == b'x')
    then send_word d args sent
    else if d == b's'
    then send_text args sent
    else if d == b'%'
    then some (args, serial_putchar b'%' sent)
    else some (args, serial_putchar d (serial_putchar b'%' sent))

unfoldable pub serial_printf : List ℕ → List Arg → List ℕ → Option (List ℕ)
serial_printf [] args sent = some sent
serial_printf (c ∷ []) args sent = if c == b'%' then none else some (serial_putchar c sent)
serial_printf (c ∷ d ∷ cs) args sent = elim (c == b'%') [
  | true ↦ elim (serial_directive d args sent) [
    | none ↦ none
    | some (args', sent') ↦ serial_printf cs args' sent'
  ]
  | false ↦ serial_printf (d ∷ cs) args (serial_putchar c sent)
]

-- A call of a printer: its format and its arguments.
abbrev pub Call : Type 0
Call = List ℕ × List Arg

-- Calls of `kprintf` in turn.
unfoldable pub kprintf_all : List Call → Terminal → Option Terminal
kprintf_all [] t = some t
kprintf_all ((format, args) ∷ calls) t = elim (kprintf format args t) [
  | none ↦ none
  | some t' ↦ kprintf_all calls t'
]
