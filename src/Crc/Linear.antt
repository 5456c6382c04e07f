-- ===== src/Crc/Linear.antt =====
-- The bitwise CRC is linear in the bits that it has not reached yet.
use ur5_ros.Common.{ℕ, zero, suc, ◌*◌, ◌/◌, ◌%◌, ◌^◌, bit_xor, ◌≡◌, ap, ◌∙◌, arith, ◌⊎◌, inl, inr}
use ur5_ros.Common.Bits.{bit_xor-div, bit_xor-mod, bit_xor_assoc, bit_xor_comm, bit_and-one, double}
use ur5_ros.Crc.Bitwise.{bit_step, bit_loop}

pub bit_step_even : (c : ℕ) → c % 2 ≡ 0 → bit_step c ≡ c / 2
unfolding bit_step
bit_step_even c h = ground (arith, bit_and-one c)

pub bit_step_odd : (c : ℕ) → c % 2 ≡ 1 → bit_step c ≡ bit_xor (c / 2) 0xa001
unfolding bit_step
bit_step_odd c h = ground (arith, bit_and-one c)

pub parity : (n : ℕ) → (n % 2 ≡ 0) ⊎ (n % 2 ≡ 1)
parity n = omega arith

-- An even number goes through a step untouched, halved.
bit_step-xor : (a b : ℕ) → bit_step (bit_xor a (2 * b)) ≡ bit_xor (bit_step a) b
bit_step-xor a b = elim (parity a) [
  | inl e ↦
      rw
        (
          bit_step_even (bit_xor a (2 * b)) (omega (arith, bit_xor-mod a (2 * b), e)),
          bit_step_even a e,
        )
        half
  | inr o ↦
      rw
        (
          bit_step_odd (bit_xor a (2 * b)) (omega (arith, bit_xor-mod a (2 * b), o)),
          bit_step_odd a o,
          half,
        )
        (rw (bit_xor_assoc, bit_xor_comm b 0xa001, ← bit_xor_assoc))
]
  where
    halved : 2 * b / 2 ≡ b
    halved = omega arith

    half : bit_xor a (2 * b) / 2 ≡ bit_xor (a / 2) b
    half = bit_xor-div a (2 * b) ∙ ap (bit_xor (a / 2)) halved

pub bit_loop-xor : (k a b : ℕ) → bit_loop k (bit_xor a (b * 2 ^ k)) ≡ bit_xor (bit_loop k a) b
unfolding bit_loop
bit_loop-xor zero a b = ap (bit_xor a) (omega arith)
bit_loop-xor (suc k) a b =
    ap (bit_loop k) (ap (λ t. bit_step (bit_xor a t)) (double b k) ∙ bit_step-xor a (b * 2 ^ k))
    ∙ bit_loop-xor k (bit_step a) b
