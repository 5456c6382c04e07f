-- ===== src/Crc/Detection.antt =====
-- What the CRC of a frame is worth to its receiver.
use ur5_ros.Common.{
  ℕ, zero, suc, ◌+◌, ◌*◌, ◌/◌, ◌%◌, ◌^◌, ◌<◌, bit_xor, ◌≡◌, ◌≢◌, refl, sym, ap, ◌∙◌, arith, some,
  List, [], ◌∷◌, ◌++◌, length, All, inl, inr,
}
use ur5_ros.Common.Bits.{
  bit_xor_assoc, bit_xor_comm, bit_xor_fields, bit_xor-lt, bit_xor_self, zero-bit_xor,
}
use ur5_ros.Crc.Bitwise.{bit_step, bit_loop, byte_step, byte_loop, rq_com_compute_crc}
use ur5_ros.Crc.Linear.{bit_loop-xor, bit_step_even, bit_step_odd, parity}
use ur5_ros.Crc.Agreement.{IsByte, byte_step-byte}

-- A step takes a number of 16 bits to one.
bit_step-lt : (c : ℕ) → c < 65536 → bit_step c < 65536
bit_step-lt c h = elim (parity c) [
  | inl e ↦ rw (bit_step_even c e) (omega arith)
  | inr o ↦ rw (bit_step_odd c o) (bit_xor-lt 16 (c / 2) 0xa001 (omega arith) (omega arith))
]

bit_loop-lt : (k c : ℕ) → c < 65536 → bit_loop k c < 65536
unfolding bit_loop
bit_loop-lt zero c h = h
bit_loop-lt (suc k) c h = bit_loop-lt k (bit_step c) (bit_step-lt c h)

-- The top bit of the result tells whether the polynomial was added.
top_bit : (c : ℕ) → c < 65536 → c % 2 ≡ 1 → 32768 + bit_xor (c / 2) 0x2001 ≡ bit_step c
top_bit c h o = sym (
    bit_step_odd c o
    ∙ ap (bit_xor (c / 2)) (sym (bit_xor_fields 15 1 0x2001 (omega arith)))
    ∙ rw (← bit_xor_assoc, bit_xor_comm (c / 2) 32768, bit_xor_assoc)
        (bit_xor_fields 15 1 _ (bit_xor-lt 15 (c / 2) 0x2001 (omega arith) (omega arith))))

cancel_right : (a b m : ℕ) → bit_xor a m ≡ bit_xor b m → a ≡ b
cancel_right a b m e = sym (undo a) ∙ ap (λ t. bit_xor t m) e ∙ undo b
  where
    undo : (x : ℕ) → bit_xor (bit_xor x m) m ≡ x
    undo x = rw (bit_xor_assoc, bit_xor_self, bit_xor_comm) (zero-bit_xor x)

bit_step-injective : (a b : ℕ) → a < 65536 → b < 65536 → bit_step a ≡ bit_step b → a ≡ b
bit_step-injective a b p q e = elim (parity a) [
  | inl ea ↦ elim (parity b) [
    | inl eb ↦ omega (arith, sym (bit_step_even a ea) ∙ e ∙ bit_step_even b eb)
    | inr ob ↦ absurd (omega (arith, bit_step_even a ea, top_bit b q ob))
  ]
  | inr oa ↦ elim (parity b) [
    | inl eb ↦ absurd (omega (arith, bit_step_even b eb, top_bit a p oa))
    | inr ob ↦ omega (
      arith,
      cancel_right (a / 2) (b / 2) 0xa001 (sym (bit_step_odd a oa) ∙ e ∙ bit_step_odd b ob),
    )
  ]
]

bit_loop-injective : (k a b : ℕ) → a < 65536 → b < 65536 → bit_loop k a ≡ bit_loop k b → a ≡ b
unfolding bit_loop
bit_loop-injective zero a b p q e = e
bit_loop-injective (suc k) a b p q e =
    bit_step-injective a b p q
      (bit_loop-injective k (bit_step a) (bit_step b) (bit_step-lt a p) (bit_step-lt b q) e)

xor-byte-lt : (c b : ℕ) → c < 65536 → b < 256 → bit_xor c b < 65536
xor-byte-lt c b p q = bit_xor-lt 16 c b p (omega arith)

byte_step-lt : (j b c : ℕ) → b < 256 → c < 65536 → byte_step j b c < 65536
byte_step-lt j b c p q = rw (byte_step-byte j b c p) (bit_loop-lt 8 _ (xor-byte-lt c b q p))

byte_loop-lt :
    (j : ℕ) (bs : List ℕ) (c : ℕ) → All IsByte bs → c < 65536 → byte_loop (length bs) j bs c < 65536
unfolding byte_loop
byte_loop-lt j [] c v h = h
byte_loop-lt j (b ∷ bs) c (p, ps) h = byte_loop-lt (suc j) bs _ ps (byte_step-lt j b c p h)

-- The same bytes from two different registers leave two different registers.
byte_loop-injective :
    (j : ℕ) (bs : List ℕ) (c d : ℕ)
    → All IsByte bs
    → c < 65536
    → d < 65536
    → byte_loop (length bs) j bs c ≡ byte_loop (length bs) j bs d
    → c ≡ d
unfolding byte_loop
byte_loop-injective j [] c d v p q e = e
byte_loop-injective j (b ∷ bs) c d (h, v) p q e = cancel_right c d b (
    bit_loop-injective 8 _ _ (xor-byte-lt c b p h) (xor-byte-lt d b q h) (
      sym (byte_step-byte j b c h)
      ∙ byte_loop-injective (suc j) bs _ _ v (byte_step-lt j b c h p) (byte_step-lt j b d h q) e
      ∙ byte_step-byte j b d h))

pub byte_loop-append :
    (j n : ℕ) (xs ys : List ℕ) (c : ℕ)
    → byte_loop (length xs + n) j (xs ++ ys) c
      ≡ byte_loop n (j + length xs) ys (byte_loop (length xs) j xs c)
unfolding byte_loop
byte_loop-append j n [] ys c =
    let z : j + 0 ≡ j = omega arith in rw z (ap (λ t. byte_loop t j ys c) (omega arith))
byte_loop-append j n (x ∷ xs) ys c =
    let shift : suc j + length xs ≡ j + suc (length xs) = omega arith in
    let count : suc (length xs) + n ≡ suc (length xs + n) = omega arith in
    rw (count, ← shift) (byte_loop-append (suc j) n xs ys (byte_step j x c))

pub crc-lt : (cmd : List ℕ) → All IsByte cmd → rq_com_compute_crc (some cmd) (length cmd) < 65536
unfolding rq_com_compute_crc
crc-lt cmd bs = byte_loop-lt 0 cmd 0xffff bs (omega arith)

zero_steps : bit_loop 8 0 ≡ 0
unfolding bit_loop bit_step
zero_steps = refl

-- From register `c`, the low and then the high byte of `c` lead to 0.
low_then_high : (j c : ℕ) → c < 65536 → byte_loop 2 j (c % 256 ∷ c / 256 ∷ []) c ≡ 0
unfolding byte_loop
low_then_high j c h =
    rw (byte_step-byte j (c % 256) c (omega arith), high)
      (rw (byte_step-byte (suc j) (c / 256) (c / 256) (omega arith), bit_xor_self) zero_steps)
  where
    swallow : bit_xor c (c % 256) ≡ bit_xor 0 (c / 256 * 2 ^ 8)
    swallow =
        ap (λ t. bit_xor t (c % 256))
          (sym (bit_xor_fields 8 (c / 256) (c % 256) (omega arith) ∙ omega arith))
        ∙ bit_xor_assoc _ _ _
        ∙ rw (bit_xor_self, bit_xor_comm) refl

    high : bit_loop 8 (bit_xor c (c % 256)) ≡ c / 256
    high = rw (swallow, bit_loop-xor 8 0 (c / 256), zero_steps) (zero-bit_xor (c / 256))

-- Over a frame that ends with its own CRC, low byte first, the CRC is 0.
pub crc-append_crc :
    (cmd : List ℕ)
    → All IsByte cmd
    → let c = rq_com_compute_crc (some cmd) (length cmd) in
      rq_com_compute_crc (some (cmd ++ c % 256 ∷ c / 256 ∷ [])) (length cmd + 2) ≡ 0
unfolding rq_com_compute_crc
crc-append_crc cmd bs = byte_loop-append 0 2 cmd _ 0xffff ∙ low_then_high _ _ (crc-lt cmd bs)

-- Two frames that differ in one byte, and nowhere else, have different CRCs.
pub crc_detects_byte :
    (before after : List ℕ) (a b : ℕ)
    → All IsByte before
    → All IsByte after
    → IsByte a
    → IsByte b
    → a ≢ b
    → rq_com_compute_crc (some (before ++ a ∷ after)) (length before + suc (length after))
      ≢ rq_com_compute_crc (some (before ++ b ∷ after)) (length before + suc (length after))
unfolding rq_com_compute_crc
crc_detects_byte before after a b vs ws p q ne e = ne (
    cancel_left
      (bit_loop-injective 8 _ _ (xor-byte-lt _ a start p) (xor-byte-lt _ b start q) steps))
  where
    c : ℕ
    c = byte_loop (length before) 0 before 0xffff

    start : c < 65536
    start = byte_loop-lt 0 before 0xffff vs (omega arith)

    cancel_left : bit_xor c a ≡ bit_xor c b → a ≡ b
    cancel_left f = cancel_right a b c (bit_xor_comm a c ∙ f ∙ bit_xor_comm c b)

    after_a :
        (x : ℕ)
        → byte_loop (length before + suc (length after)) 0 (before ++ x ∷ after) 0xffff
          ≡ byte_loop
              (length after)
              (suc (0 + length before))
              after
              (byte_step (0 + length before) x c)
    after_a x = byte_loop-append 0 (suc (length after)) before (x ∷ after) 0xffff

    steps : bit_loop 8 (bit_xor c a) ≡ bit_loop 8 (bit_xor c b)
    steps =
        sym (byte_step-byte _ a c p)
        ∙ byte_loop-injective _ after _ _ ws (byte_step-lt _ a c p start)
            (byte_step-lt _ b c q start) (sym (after_a a) ∙ e ∙ after_a b)
        ∙ byte_step-byte _ b c q
