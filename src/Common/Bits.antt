-- ===== src/Common/Bits.antt =====
-- `&` and `|` at variables: the law of the lowest digit, and from it low and high masks.
use Prim.Native.Nat.{ℕ, zero, suc, ◌+◌, ◌*◌, ◌/◌, ◌%◌, ◌≤◌, ◌<◌, min, max, bit_and, bit_or}
use Prim.Native.Nat.{digits, bitwise, bit_and-bitwise, bit_or-bitwise}
use mathlib.Core.Path.{◌≡◌, refl}
use native.Mathlib.Omega.{arith}
use native.Mathlib.Nat.{le_refl, div-eq_of_lt}

-- Enough fuel for the first operand gives one result.
enough_fuel :
    (z : ℕ → ℕ) (f : ℕ → ℕ → ℕ) (a b n m : ℕ) → a ≤ n → a ≤ m → digits z f n a b ≡ digits z f m a b
enough_fuel z f zero b zero zero p q = refl
enough_fuel z f zero b zero (suc m) p q = refl
enough_fuel z f zero b (suc n) zero p q = refl
enough_fuel z f zero b (suc n) (suc m) p q = refl
enough_fuel z f (suc a) b zero m p q = absurd (omega arith)
enough_fuel z f (suc a) b (suc n) zero p q = absurd (omega arith)
enough_fuel z f (suc a) b (suc n) (suc m) p q =
    rw (enough_fuel z f (suc a / 2) (b / 2) n m (omega arith) (omega arith))

lowest_digit :
    (z : ℕ → ℕ) (f : ℕ → ℕ → ℕ) (a b : ℕ)
    → bitwise z f (suc a) b ≡ bitwise z f (suc a / 2) (b / 2) * 2 + f (suc a % 2) (b % 2)
lowest_digit z f a b =
    omega (arith, enough_fuel z f (suc a / 2) (b / 2) a (suc a / 2) (omega arith) (le_refl _))

pub bit_and_digit : (a b : ℕ) → bit_and a b ≡ bit_and (a / 2) (b / 2) * 2 + min (a % 2) (b % 2)
bit_and_digit zero b = simp bit_and-bitwise (omega arith)
bit_and_digit (suc a) b = simp bit_and-bitwise (lowest_digit (λ y. 0) min a b)

pub bit_or_digit : (a b : ℕ) → bit_or a b ≡ bit_or (a / 2) (b / 2) * 2 + max (a % 2) (b % 2)
bit_or_digit zero b = simp bit_or-bitwise (omega arith)
bit_or_digit (suc a) b = simp bit_or-bitwise (lowest_digit (λ y. y) max a b)

below-bit_and-zero : (n a : ℕ) → a ≤ n → bit_and a 0 ≡ 0
below-bit_and-zero zero a h = let e : a ≡ 0 = omega arith in rw e
below-bit_and-zero (suc n) a h =
    omega (arith, bit_and_digit a 0, below-bit_and-zero n (a / 2) (omega arith))

pub bit_and-zero : (a : ℕ) → bit_and a 0 ≡ 0
bit_and-zero a = below-bit_and-zero a a (le_refl a)

below-bit_or-zero : (n a : ℕ) → a ≤ n → bit_or a 0 ≡ a
below-bit_or-zero zero a h = let e : a ≡ 0 = omega arith in rw e
below-bit_or-zero (suc n) a h =
    omega (arith, bit_or_digit a 0, below-bit_or-zero n (a / 2) (omega arith))

pub bit_or-zero : (a : ℕ) → bit_or a 0 ≡ a
bit_or-zero a = below-bit_or-zero a a (le_refl a)

-- 2 ^ k and 2 ^ k - 1, by recursion.
abbrev pub power : ℕ → ℕ
power zero = 1
power (suc k) = power k * 2

abbrev pub ones : ℕ → ℕ
ones zero = 0
ones (suc k) = suc (ones k * 2)

pub power_pos : (k : ℕ) → 0 < power k
power_pos zero = omega arith
power_pos (suc k) = omega (arith, power_pos k)

-- Fields that do not meet: `|` adds them, and a mask of ones takes the low one.
pub bit_or_fields : (k q r : ℕ) → r < power k → bit_or (q * power k) r ≡ q * power k + r
bit_or_fields zero q r h = ground (arith, bit_or-zero q)
bit_or_fields (suc k) q r h =
    ground (arith, bit_or_digit (q * (power k * 2)) r, bit_or_fields k q (r / 2) (omega arith))

pub bit_and_low : (k q r : ℕ) → r < power k → bit_and (q * power k + r) (ones k) ≡ r
bit_and_low zero q r h = ground (arith, bit_and-zero q)
bit_and_low (suc k) q r h = ground (
  arith,
  bit_and_digit (q * (power k * 2) + r) (suc (ones k * 2)),
  bit_and_low k q (r / 2) (omega arith),
)

pub bit_and_high :
    (k q r m : ℕ) → r < power k → bit_and (q * power k + r) (m * power k) ≡ bit_and q m * power k
bit_and_high zero q r m h = ground arith
bit_and_high (suc k) q r m h = ground (
  arith,
  bit_and_digit (q * (power k * 2) + r) (m * (power k * 2)),
  bit_and_high k q (r / 2) m (omega arith),
)

-- x & (2 ^ k - 1)
pub bit_and-ones : (k x : ℕ) → bit_and x (ones k) ≡ x % power k
bit_and-ones k x = ground (arith, power_pos k, bit_and_low k (x / power k) (x % power k))

-- x & (m << k)
pub bit_and-shifted : (k m x : ℕ) → bit_and x (m * power k) ≡ bit_and (x / power k) m * power k
bit_and-shifted k m x = ground (arith, power_pos k, bit_and_high k (x / power k) (x % power k) m)

div-double : (p x : ℕ) → 0 < p → x / (p * 2) ≡ x / 2 / p
div-double p x h = grind arith

-- `|` goes through a shift to the right.
pub bit_or-div : (k a b : ℕ) → bit_or a b / power k ≡ bit_or (a / power k) (b / power k)
bit_or-div zero a b = ground arith
bit_or-div (suc k) a b = ground (
  arith,
  power_pos k,
  bit_or_digit a b,
  bit_or-div k (a / 2) (b / 2),
  div-double (power k) a,
  div-double (power k) b,
  div-double (power k) (bit_or a b),
)

pub bit_or-lt : (k a b : ℕ) → a < power k → b < power k → bit_or a b < power k
bit_or-lt k a b ha hb = below (power k) (bit_or a b) (power_pos k) none_left
  where
    below : (p x : ℕ) → 0 < p → x / p ≡ 0 → x < p
    below p x h e = grind arith

    none_left : bit_or a b / power k ≡ 0
    none_left = rw (bit_or-div k a b, div-eq_of_lt ha, div-eq_of_lt hb)
