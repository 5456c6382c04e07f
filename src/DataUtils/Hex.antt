-- ===== src/DataUtils/Hex.antt =====
-- The strings of `to_hex` read back.
use mathlib.Core.List.{append-nil, append_assoc}
use ur5_ros.Common.{
  ℕ, ◌+◌, ◌-◌, ◌*◌, ◌/◌, ◌%◌, ◌^◌, ◌<◌, ◌≡◌, refl, ap, ◌∙◌, arith, List, [], ◌∷◌, ◌++◌, Option,
  none, some, ◌==◌, leb, ◌&&◌, if◌then◌else◌, Bool, true, false, All, all_below, all_below_sound,
  ==→eq, get_or,
}
use ur5_ros.Common.Bits.{bit_and-nibble}
use ur5_ros.DataUtils.{v_chars, hex_digit, hex_round, byte_digits, to_hex_loop, to_hex}

-- The value of a digit character, upper case only.
pub hex_value : ℕ → Option ℕ
hex_value c =
    if leb b'0' c && leb c b'9'
    then some (c - 48)
    else if leb b'A' c && leb c b'F'
    then some (c - 55)
    else none

pub pair_value : Option ℕ → Option ℕ → Option (List ℕ) → Option (List ℕ)
pair_value (some a) (some b) (some rest) = some ((a * 16 + b) ∷ rest)
pair_value _ _ _ = none

-- Bytes of two digits each, with one space between two of them.
pub read_hex : List ℕ → Option (List ℕ)
read_hex [] = some []
read_hex (a ∷ []) = none
read_hex (a ∷ b ∷ []) = pair_value (hex_value a) (hex_value b) (some [])
read_hex (a ∷ b ∷ c ∷ cs) =
    let rest = read_hex cs in
    if c == b' ' then pair_value (hex_value a) (hex_value b) rest else none

is_digit_of : Option ℕ → ℕ → Bool
is_digit_of none n = false
is_digit_of (some m) n = m == n

digit_table : all_below 16 (λ n. is_digit_of (hex_value (get_or v_chars n 0)) n) ≡ true
unfolding all_below is_digit_of hex_value v_chars
digit_table = refl

is_digit_of→eq : (o : Option ℕ) (n : ℕ) → is_digit_of o n ≡ true → o ≡ some n
unfolding is_digit_of
is_digit_of→eq none n h = cc
is_digit_of→eq (some m) n h = ap some (==→eq m n h)

hex_value-hex_digit : (ch k : ℕ) → hex_value (hex_digit ch k) ≡ some (ch / 2 ^ k % 16)
unfolding hex_digit
hex_value-hex_digit ch k =
    rw (bit_and-nibble (ch / 2 ^ k))
      (is_digit_of→eq _ _ (all_below_sound 16 _ digit_table (ch / 2 ^ k % 16) (omega arith)))

-- What the loop writes, without its accumulator.
spelled : Bool → List ℕ → List ℕ
spelled first [] = []
spelled first (b ∷ bs) = (if first then [] else b' ' ∷ []) ++ byte_digits b ++ spelled false bs

to_hex_loop-spelled :
    (first : Bool) (bs hex : List ℕ)
    → to_hex_loop byte_digits first bs hex ≡ hex ++ spelled first bs
unfolding to_hex_loop spelled hex_round
to_hex_loop-spelled first [] hex = rw append-nil
to_hex_loop-spelled first (b ∷ bs) hex = to_hex_loop-spelled false bs _ ∙ simp append_assoc

byte_pair :
    (b : ℕ) (rest : List ℕ)
    → b < 256
    → pair_value (hex_value (hex_digit b 4)) (hex_value (hex_digit b 0)) (some rest)
      ≡ some (b ∷ rest)
unfolding pair_value
byte_pair b rest h =
    rw (hex_value-hex_digit b 4, hex_value-hex_digit b 0) (ap (λ t. some (t ∷ rest)) (omega arith))

read_hex-spelled : (bs : List ℕ) → All (λ b. b < 256) bs → read_hex (spelled true bs) ≡ some bs
unfolding read_hex spelled byte_digits
read_hex-spelled [] v = refl
read_hex-spelled (b ∷ []) (h, v) = byte_pair b [] h
read_hex-spelled (b ∷ c ∷ bs) (h, v) = rw (read_hex-spelled (c ∷ bs) v) (byte_pair b (c ∷ bs) h)

-- The string of any list of bytes reads back as that list.
pub read_hex-to_hex :
    (bytes : List ℕ) → All (λ b. b < 256) bytes → read_hex (to_hex bytes) ≡ some bytes
unfolding to_hex
read_hex-to_hex bytes v = ap read_hex (to_hex_loop-spelled true bytes []) ∙ read_hex-spelled bytes v
