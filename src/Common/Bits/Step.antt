-- ===== src/Common/Bits/Step.antt =====
-- One equation for the lowest digit of each native bit operation.
use Prim.Native.Nat.{
  ℕ, zero, suc, ◌+◌, ◌*◌, ◌/◌, ◌%◌, ◌≤◌, min, max, differ, digits, bitwise, bit_and, bit_or,
  bit_xor, bit_and-bitwise, bit_or-bitwise, bit_xor-bitwise,
}
use mathlib.Core.Path.{◌≡◌, refl, sym, ap, ◌∙◌}
use native.Mathlib.Omega.{arith}

-- `end` is what an operation makes of the rest of the second number when the first has run out.
module _ (end : ℕ → ℕ) (op : ℕ → ℕ → ℕ) where
  run_out : (count b : ℕ) → digits end op count 0 b ≡ end b
  run_out zero b = refl
  run_out (suc count) b = refl

  -- Two counts of digits to go that both cover the first number serve alike.
  same_digits : (a b i j : ℕ) → i ≤ j → a ≤ i → digits end op j a b ≡ digits end op i a b
  same_digits zero b i j le p = run_out j b ∙ sym (run_out i b)
  same_digits (suc a) b zero j le p = absurd (omega arith)
  same_digits (suc a) b (suc i) zero le p = absurd (omega arith)
  same_digits (suc a) b (suc i) (suc j) le p =
      ap (λ rest. rest * 2 + op (suc a % 2) (b % 2))
        (same_digits (suc a / 2) (b / 2) i j (omega arith) (omega arith))

  pub bitwise_step :
      ((b : ℕ) → end b ≡ end (b / 2) * 2 + op 0 (b % 2))
      → (a b : ℕ) → bitwise end op a b ≡ bitwise end op (a / 2) (b / 2) * 2 + op (a % 2) (b % 2)
  bitwise_step law zero b = law b
  bitwise_step law (suc a) b =
      ap (λ rest. rest * 2 + op (suc a % 2) (b % 2))
        (same_digits (suc a / 2) (b / 2) (suc a / 2) a (omega arith) (omega arith))

pub bit_and_step : (a b : ℕ) → bit_and a b ≡ bit_and (a / 2) (b / 2) * 2 + min (a % 2) (b % 2)
bit_and_step a b = simp bit_and-bitwise (bitwise_step (λ _. zero) min (λ y. omega arith) a b)

pub bit_or_step : (a b : ℕ) → bit_or a b ≡ bit_or (a / 2) (b / 2) * 2 + max (a % 2) (b % 2)
bit_or_step a b = simp bit_or-bitwise (bitwise_step (λ y. y) max (λ y. omega arith) a b)

differ_zero : (b : ℕ) → b ≡ b / 2 * 2 + differ 0 (b % 2)
differ_zero b = omega arith

pub bit_xor_step : (a b : ℕ) → bit_xor a b ≡ bit_xor (a / 2) (b / 2) * 2 + differ (a % 2) (b % 2)
bit_xor_step a b = simp bit_xor-bitwise (bitwise_step (λ y. y) differ differ_zero a b)

-- On two binary digits exclusive or is the sum without its carry.
pub differ-mod : (a b : ℕ) → differ (a % 2) (b % 2) ≡ (a + b) % 2
differ-mod a b = digit (a % 2) (b % 2) (a + b) (omega arith) (omega arith) (omega arith)
  where
    digit : (x y s : ℕ) → x ≤ 1 → y ≤ 1 → s % 2 ≡ (x + y) % 2 → differ x y ≡ s % 2
    digit zero y s p q e = omega arith
    digit (suc zero) zero s p q e = omega arith
    digit (suc zero) (suc zero) s p q e = omega arith
    digit (suc zero) (suc (suc y)) s p q e = absurd (omega arith)
    digit (suc (suc x)) y s p q e = absurd (omega arith)
