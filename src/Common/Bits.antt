-- ===== src/Common/Bits.antt =====
-- The laws of `^` on numbers of any width, and of `&` with the masks that the sources use.
mod Step
use Step.{bit_and_step, bit_or_step, bit_xor_step, differ-mod}
use Prim.Native.Nat.{ℕ, zero, suc, ◌+◌, ◌-◌, ◌*◌, ◌/◌, ◌%◌, ◌^◌, ◌≤◌, ◌<◌, bit_and, bit_or, bit_xor}
use mathlib.Core.Path.{◌≡◌, refl}
use native.Mathlib.Nat.{pow-suc}
use native.Mathlib.Omega.{arith}

-- Exclusive or by its lowest digit.
pub bit_xor_digit : (a b : ℕ) → bit_xor a b ≡ bit_xor (a / 2) (b / 2) * 2 + (a + b) % 2
bit_xor_digit a b = omega (arith, bit_xor_step a b, differ-mod a b)

pub bit_xor-div : (a b : ℕ) → bit_xor a b / 2 ≡ bit_xor (a / 2) (b / 2)
bit_xor-div a b = omega (arith, bit_xor_digit a b)

pub bit_xor-mod : (a b : ℕ) → bit_xor a b % 2 ≡ (a + b) % 2
bit_xor-mod a b = omega (arith, bit_xor_digit a b)

-- Two numbers with the same half and the same parity are equal.
by_digit : (x y : ℕ) → x / 2 ≡ y / 2 → x % 2 ≡ y % 2 → x ≡ y
by_digit x y p q = omega arith

-- Induction on a bound of both numbers; the bound halves with them.
assoc_below :
    (n a b c : ℕ) → a ≤ n → b ≤ n → c ≤ n → bit_xor (bit_xor a b) c ≡ bit_xor a (bit_xor b c)
assoc_below zero zero zero zero p q r = refl
assoc_below zero (suc a) b c p q r = absurd (omega arith)
assoc_below zero zero (suc b) c p q r = absurd (omega arith)
assoc_below zero zero zero (suc c) p q r = absurd (omega arith)
assoc_below (suc n) a b c p q r =
    by_digit _ _
      (rw (bit_xor-div, bit_xor-div, bit_xor-div, bit_xor-div)
        (assoc_below n (a / 2) (b / 2) (c / 2) (omega arith) (omega arith) (omega arith)))
      (omega (
        arith,
        bit_xor-mod (bit_xor a b) c,
        bit_xor-mod a b,
        bit_xor-mod a (bit_xor b c),
        bit_xor-mod b c,
      ))

pub bit_xor_assoc : (a b c : ℕ) → bit_xor (bit_xor a b) c ≡ bit_xor a (bit_xor b c)
bit_xor_assoc a b c = assoc_below (a + b + c) a b c (omega arith) (omega arith) (omega arith)

comm_below : (n a b : ℕ) → a ≤ n → b ≤ n → bit_xor a b ≡ bit_xor b a
comm_below zero zero zero p q = refl
comm_below zero (suc a) b p q = absurd (omega arith)
comm_below zero zero (suc b) p q = absurd (omega arith)
comm_below (suc n) a b p q = omega (
  arith,
  bit_xor_digit a b,
  bit_xor_digit b a,
  comm_below n (a / 2) (b / 2) (omega arith) (omega arith),
)

pub bit_xor_comm : (a b : ℕ) → bit_xor a b ≡ bit_xor b a
bit_xor_comm a b = comm_below (a + b) a b (omega arith) (omega arith)

self_below : (n a : ℕ) → a ≤ n → bit_xor a a ≡ 0
self_below zero zero p = refl
self_below zero (suc a) p = absurd (omega arith)
self_below (suc n) a p = omega (arith, bit_xor_digit a a, self_below n (a / 2) (omega arith))

pub bit_xor_self : (a : ℕ) → bit_xor a a ≡ 0
bit_xor_self a = self_below a a (omega arith)

zero_below : (n a : ℕ) → a ≤ n → bit_xor 0 a ≡ a
zero_below zero zero p = refl
zero_below zero (suc a) p = absurd (omega arith)
zero_below (suc n) a p = omega (arith, bit_xor_digit 0 a, zero_below n (a / 2) (omega arith))

pub zero-bit_xor : (a : ℕ) → bit_xor 0 a ≡ a
zero-bit_xor a = zero_below a a (omega arith)

pub double : (q k : ℕ) → q * 2 ^ suc k ≡ 2 * (q * 2 ^ k)
double q k = rw (pow-suc 2 k) (grind arith)

-- The result fits the width that both sides fit.
pub bit_xor-lt : (k a b : ℕ) → a < 2 ^ k → b < 2 ^ k → bit_xor a b < 2 ^ k
bit_xor-lt zero zero zero p q = omega arith
bit_xor-lt zero (suc a) b p q = absurd (omega arith)
bit_xor-lt zero zero (suc b) p q = absurd (omega arith)
bit_xor-lt (suc k) a b p q = omega (
  arith,
  pow-suc 2 k,
  bit_xor_digit a b,
  bit_xor-lt k (a / 2) (b / 2) (omega (arith, pow-suc 2 k)) (omega (arith, pow-suc 2 k)),
)

half_double : (m : ℕ) → 2 * m / 2 ≡ m
half_double m = omega arith

xor_double : (m r : ℕ) → bit_xor m (r / 2) ≡ m + r / 2 → bit_xor (2 * m) r ≡ 2 * m + r
xor_double m r ih = omega (arith, bit_xor_digit (2 * m) r, halves)
  where
    halves : bit_xor (2 * m / 2) (r / 2) ≡ m + r / 2
    halves = rw (half_double m) ih

-- Fields that do not meet add up.
pub bit_xor_fields : (k q r : ℕ) → r < 2 ^ k → bit_xor (q * 2 ^ k) r ≡ q * 2 ^ k + r
bit_xor_fields zero q zero p = omega (arith, bit_xor_comm (q * 1) 0, zero-bit_xor (q * 1))
bit_xor_fields zero q (suc r) p = absurd (omega arith)
bit_xor_fields (suc k) q r p =
    rw (double q k)
      (xor_double (q * 2 ^ k) r (bit_xor_fields k q (r / 2) (omega (arith, pow-suc 2 k))))

and_zero_below : (n a : ℕ) → a ≤ n → bit_and a 0 ≡ 0
and_zero_below zero zero p = refl
and_zero_below zero (suc a) p = absurd (omega arith)
and_zero_below (suc n) a p = omega (arith, bit_and_step a 0, and_zero_below n (a / 2) (omega arith))

pub bit_and-zero : (a : ℕ) → bit_and a 0 ≡ 0
bit_and-zero a = and_zero_below a a (omega arith)

pub bit_and-one : (a : ℕ) → bit_and a 1 ≡ a % 2
bit_and-one a = omega (arith, bit_and_step a 1, bit_and-zero (a / 2))

-- Masks of low bits are remainders.
pub bit_and-low_two : (a : ℕ) → bit_and a 3 ≡ a % 4
bit_and-low_two a = omega (arith, bit_and_step a 3, bit_and-one (a / 2))

pub bit_and-nibble : (a : ℕ) → bit_and a 0xf ≡ a % 16
bit_and-nibble a =
    omega (arith, bit_and_step a 15, bit_and_step (a / 2) 7, bit_and-low_two (a / 2 / 2))

pub bit_and-low_byte : (a : ℕ) → bit_and a 0xff ≡ a % 256
bit_and-low_byte a = omega (
  arith,
  bit_and_step a 255,
  bit_and_step (a / 2) 127,
  bit_and_step (a / 2 / 2) 63,
  bit_and_step (a / 2 / 2 / 2) 31,
  bit_and-nibble (a / 2 / 2 / 2 / 2),
)

pub bit_and-byte : (a : ℕ) → a < 256 → bit_and a 0xff ≡ a
bit_and-byte a h = omega (arith, bit_and-low_byte a)

-- A mask of one bit.
pub bit_and-bit3 : (a : ℕ) → bit_and a 0x08 ≡ a / 8 % 2 * 8
bit_and-bit3 a = omega (
  arith,
  bit_and_step a 8,
  bit_and_step (a / 2) 4,
  bit_and_step (a / 2 / 2) 2,
  bit_and-one (a / 2 / 2 / 2),
)

pub bit_and-bit7 : (a : ℕ) → bit_and a 0x80 ≡ a / 128 % 2 * 128
bit_and-bit7 a = omega (
  arith,
  bit_and_step a 0x80,
  bit_and_step (a / 2) 0x40,
  bit_and_step (a / 2 / 2) 0x20,
  bit_and_step (a / 2 / 2 / 2) 0x10,
  bit_and-bit3 (a / 2 / 2 / 2 / 2),
)

pub bit_and-bits45 : (a : ℕ) → bit_and a 0x30 ≡ a / 16 % 4 * 16
bit_and-bits45 a = omega (
  arith,
  bit_and_step a 0x30,
  bit_and_step (a / 2) 0x18,
  bit_and_step (a / 2 / 2) 0x0c,
  bit_and_step (a / 2 / 2 / 2) 0x06,
  bit_and-low_two (a / 2 / 2 / 2 / 2),
)

pub bit_and-bits67 : (a : ℕ) → bit_and a 0xc0 ≡ a / 64 % 4 * 64
bit_and-bits67 a =
    omega (arith, bit_and_step a 0xc0, bit_and_step (a / 2) 0x60, bit_and-bits45 (a / 2 / 2))

or_zero_below : (n a : ℕ) → a ≤ n → bit_or a 0 ≡ a
or_zero_below zero zero p = refl
or_zero_below zero (suc a) p = absurd (omega arith)
or_zero_below (suc n) a p = omega (arith, bit_or_step a 0, or_zero_below n (a / 2) (omega arith))

pub bit_or-zero : (a : ℕ) → bit_or a 0 ≡ a
bit_or-zero a = or_zero_below a a (omega arith)

or_double : (m r : ℕ) → bit_or m (r / 2) ≡ m + r / 2 → bit_or (2 * m) r ≡ 2 * m + r
or_double m r ih = omega (arith, bit_or_step (2 * m) r, halves)
  where
    halves : bit_or (2 * m / 2) (r / 2) ≡ m + r / 2
    halves = rw (half_double m) ih

-- `(q << k) | r` is a sum when `r` fits `k` bits.
pub bit_or_fields : (k q r : ℕ) → r < 2 ^ k → bit_or (q * 2 ^ k) r ≡ q * 2 ^ k + r
bit_or_fields zero q zero p = omega (arith, bit_or-zero (q * 1))
bit_or_fields zero q (suc r) p = absurd (omega arith)
bit_or_fields (suc k) q r p =
    rw (double q k)
      (or_double (q * 2 ^ k) r (bit_or_fields k q (r / 2) (omega (arith, pow-suc 2 k))))
