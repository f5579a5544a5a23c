-- ===== src/Format/Digits.antt =====
-- kernel/kprintf.c and serial.c: the digits that are printed read back as the number, and fit the buffers.
use tuple_os.Common.{
  ℕ, zero, suc, ◌+◌, ◌-◌, ◌*◌, ◌/◌, ◌≤◌, ◌<◌, ◌≡◌, refl, ap, ◌∙◌, arith, ltb, if◌then◌else◌, List,
  [], ◌∷◌, Option, some, u32_mod, length,
}
use native.Mathlib.Decide.{ℕ_discrete, dec_lt}
use tuple_os.Common.Bits.{bit_and-ones}
use tuple_os.Format.{collect, decimal_digit, hex_digit, print_uint, print_int, print_hex, fuel}

-- The digit that a character stands for.
abbrev pub digit_value : ℕ → ℕ
digit_value c = if ltb c b'A' then c - b'0' else c - b'A' + 10

-- The number that a row of digits stands for, read on from `acc`.
pub read : ℕ → ℕ → List ℕ → ℕ
read base acc [] = acc
read base acc (c ∷ cs) = read base (acc * base + digit_value c) cs

-- The numbers below this one have `n` digits at most.
pub bound : ℕ → ℕ → ℕ
bound base zero = 1
bound base (suc n) = base * bound base n

-- What the loop leaves.
record Collected (n base : ℕ) (digit : ℕ → ℕ) (num : ℕ) (buffer : List ℕ) (k : ℕ) : Type 0 where
  chars : List ℕ
  runs : collect n base digit num buffer ≡ some chars
  reads : read base 0 chars ≡ read base num buffer
  short : length chars ≤ k + length buffer

module _ (base : ℕ) (digit : ℕ → ℕ) (shrinks : (m b : ℕ) → m < base * b → m / base < b)
    (rebuilds : (m : ℕ) → m / base * base + digit_value (digit m) ≡ m) where
  collect_lem :
      (k n num : ℕ) (buffer : List ℕ)
      → k < n
      → num < bound base k
      → Collected n base digit num buffer k
  unfolding collect bound read
  collect_lem k zero num buffer h s = absurd (omega arith)
  collect_lem zero (suc n) num buffer h s = record {
    chars = buffer;
    runs = ground arith;
    reads = ground arith;
    short = omega arith;
  }
  collect_lem (suc k) (suc n) num buffer h s = elim (ℕ_discrete num 0) [
    | yes e ↦ record {
      chars = buffer;
      runs = ground (arith, e);
      reads = rw e refl;
      short = omega arith;
    }
    | no e ↦
        let rest =
          collect_lem k n (num / base) (digit num ∷ buffer) (omega arith)
            (shrinks num (bound base k) s) in
        record {
          chars = rest.chars;
          runs = ground (arith, e, rest.runs);
          reads = rest.reads ∙ ap (λ m. read base m buffer) (rebuilds num);
          short = omega (arith, rest.short);
        }
  ]

-- What the print functions print for a number: digits that read back as it, no more than `k`.
pub record Printed (base k num : ℕ) (printed : Option (List ℕ)) : Type 0 where
  pub chars : List ℕ
  pub runs : printed ≡ some chars
  pub reads : read base 0 chars ≡ num
  pub short : length chars ≤ k

-- `print_uint` ends on every 32-bit number; what it prints reads back as the number, in ten digits at
-- most, so the buffer of twelve bytes is large enough.
pub print_uint_lem : (num : ℕ) → num < u32_mod → Printed 10 10 num (print_uint num)
unfolding print_uint bound read
print_uint_lem num h = elim (ℕ_discrete num 0) [
  | yes e ↦ record {
    chars = b'0' ∷ [];
    runs = ground (arith, e);
    reads = ground (arith, e);
    short = omega arith;
  }
  | no e ↦
      let x =
        collect_lem 10 decimal_digit (λ m b s. omega arith) (λ m. ground arith) 10 fuel num []
          (omega arith) (omega arith) in
      record {
        chars = x.chars;
        runs = ground (arith, e, x.runs);
        reads = x.reads;
        short = omega (arith, x.short);
      }
]

hex_value : (m : ℕ) → m / 16 * 16 + digit_value (hex_digit m) ≡ m
unfolding hex_digit
hex_value m = ground (arith, bit_and-ones 4 m)

-- `print_hex` ends on every 32-bit number; what it prints reads back as the number, in eight digits at
-- most, so the buffer of eight bytes is large enough.
pub print_hex_lem : (num : ℕ) → num < u32_mod → Printed 16 8 num (print_hex num)
unfolding print_hex bound read
print_hex_lem num h = elim (ℕ_discrete num 0) [
  | yes e ↦ record {
    chars = b'0' ∷ [];
    runs = ground (arith, e);
    reads = ground (arith, e);
    short = omega arith;
  }
  | no e ↦
      let x =
        collect_lem 16 hex_digit (λ m b s. omega arith) hex_value 8 fuel num [] (omega arith)
          (omega arith) in
      record {
        chars = x.chars;
        runs = ground (arith, e, x.runs);
        reads = x.reads;
        short = omega (arith, x.short);
      }
]

-- `print_int` ends on every 32-bit number: it prints digits that read back as the number below 2 ^ 31,
-- and a minus sign with digits that read back as its two's complement from there on.
pub print_int_lem :
    (num : ℕ)
    → num < u32_mod
    → (chars : List ℕ) × (print_int num
        ≡ some (if ltb num 0x8000_0000 then chars else b'-' ∷ chars))
      × (read 10 0 chars ≡ (if ltb num 0x8000_0000 then num else u32_mod - num))
unfolding print_int
print_int_lem num h = elim (dec_lt num 0x8000_0000) [
  | yes low ↦
      let x = print_uint_lem num h in (x.chars, ground (arith, x.runs), ground (arith, x.reads))
  | no high ↦
      let x = print_uint_lem (u32_mod - num) (omega arith) in
      (x.chars, ground (arith, x.runs), ground (arith, x.reads))
]
