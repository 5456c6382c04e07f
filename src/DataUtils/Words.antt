-- ===== src/DataUtils/Words.antt =====
-- The two bytes of a 16-bit word, and the eight binary digits of a byte.
use ur5_ros.Common.{
  ℕ, ◌+◌, ◌*◌, ◌/◌, ◌%◌, ◌<◌, ◌≡◌, refl, ap, arith, List, [], ◌∷◌, Option, none, some, ◌==◌,
  if◌then◌else◌, Bool, true, false, ==→eq, all_below, all_below_sound,
}
use ur5_ros.Common.Bits.{bit_and-low_byte}
use ur5_ros.DataUtils.{get_msb, get_lsb, to_binary_string}

pub get_msb_lem : (value : ℕ) → value < 65536 → get_msb value ≡ value / 256
unfolding get_msb
get_msb_lem value h = omega (arith, bit_and-low_byte (value / 256 % 256))

pub get_lsb_lem : (value : ℕ) → get_lsb value ≡ value % 256
unfolding get_lsb
get_lsb_lem value = omega (arith, bit_and-low_byte value)

-- A 16-bit word is its two bytes, the high one first, and both are bytes.
pub get_msb-get_lsb :
    (value : ℕ)
    → value < 65536
    → (get_msb value * 256 + get_lsb value ≡ value) × (get_msb value < 256) × (get_lsb value < 256)
get_msb-get_lsb value h =
    let m = get_msb_lem value h in
    let l = get_lsb_lem value in (omega (arith, m, l), omega (arith, m), omega (arith, l))

-- What a reader makes of binary digits, the most significant first; `none` on any other character.
pub read_binary : ℕ → List ℕ → Option ℕ
read_binary acc [] = some acc
read_binary acc (c ∷ cs) =
    let zeros = read_binary (acc * 2) cs in
    let ones = read_binary (acc * 2 + 1) cs in
    if c == b'0' then zeros else if c == b'1' then ones else none

is_value : Option ℕ → ℕ → Bool
is_value none n = false
is_value (some m) n = m == n

is_value→eq : (o : Option ℕ) (n : ℕ) → is_value o n ≡ true → o ≡ some n
unfolding is_value
is_value→eq none n h = cc
is_value→eq (some m) n h = ap some (==→eq m n h)

binary_table : all_below 256 (λ b. is_value (read_binary 0 (to_binary_string b)) b) ≡ true
unfolding all_below is_value read_binary to_binary_string
binary_table = refl

-- The string of a byte reads back as the byte.
pub read_binary-to_binary_string :
    (byte : ℕ) → byte < 256 → read_binary 0 (to_binary_string byte) ≡ some byte
read_binary-to_binary_string byte h = is_value→eq _ byte (all_below_sound 256 _ binary_table byte h)
