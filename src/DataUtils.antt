-- ===== src/DataUtils.antt =====
-- robotiq_driver/src/data_utils.cpp. A string is the list of its character codes.
pub mod Words
pub mod Hex
use ur5_ros.Common.{
  ℕ, zero, suc, ◌+◌, ◌*◌, ◌/◌, ◌%◌, ◌^◌, bit_and, ◌≡◌, refl, Bool, true, false, List, [], ◌∷◌, ◌++◌,
  get_or, ◌==◌, if◌then◌else◌,
}

unfoldable pub v_chars : List ℕ
v_chars =
    b'0' ∷ b'1' ∷ b'2' ∷ b'3' ∷ b'4' ∷ b'5' ∷ b'6' ∷ b'7' ∷ b'8' ∷ b'9' ∷ b'A' ∷ b'B' ∷ b'C' ∷ b'D'
    ∷ b'E' ∷ b'F' ∷ []

-- `vChars[((ch >> k) & 0xF)]`; the index is below 16, so it is inside the array.
unfoldable pub hex_digit : ℕ → ℕ → ℕ
hex_digit ch k = get_or v_chars (bit_and (ch / 2 ^ k) 0xf) 0

-- One round of a `to_hex` loop: a space unless it is the first, then the digits.
unfoldable pub hex_round : Bool → List ℕ → List ℕ → List ℕ
hex_round first digits hex = hex ++ ((if first then [] else b' ' ∷ []) ++ digits)

unfoldable pub byte_digits : ℕ → List ℕ
unfolding hex_digit
byte_digits ch = hex_digit ch 4 ∷ hex_digit ch 0 ∷ []

unfoldable pub word_digits : ℕ → List ℕ
unfolding hex_digit
word_digits ch = hex_digit ch 12 ∷ hex_digit ch 8 ∷ hex_digit ch 4 ∷ hex_digit ch 0 ∷ []

-- The loop of both overloads, over what each writes for an element.
unfoldable pub to_hex_loop : (ℕ → List ℕ) → Bool → List ℕ → List ℕ → List ℕ
unfolding hex_round
to_hex_loop digits first [] hex = hex
to_hex_loop digits first (ch ∷ bytes) hex =
    to_hex_loop digits false bytes (hex_round first (digits ch) hex)

-- to_hex(const std::vector<uint8_t>&)
unfoldable pub to_hex : List ℕ → List ℕ
unfolding to_hex_loop byte_digits
to_hex bytes = to_hex_loop byte_digits true bytes []

-- to_hex(const std::vector<uint16_t>&)
unfoldable pub to_hex_words : List ℕ → List ℕ
unfolding to_hex_loop word_digits
to_hex_words bytes = to_hex_loop word_digits true bytes []

-- `for (int i = 7; i >= 0; --i)`, with i + 1 rounds left.
unfoldable pub binary_loop : ℕ → ℕ → List ℕ → List ℕ
binary_loop zero byte result = result
binary_loop (suc i) byte result =
    binary_loop i byte (result ++ (if bit_and (byte / 2 ^ i) 1 == 0 then b'0' else b'1') ∷ [])

unfoldable pub to_binary_string : ℕ → List ℕ
unfolding binary_loop
to_binary_string byte = binary_loop 8 byte []

-- `static_cast<uint8_t>(value >> 8) & 0xFF`
unfoldable pub get_msb : ℕ → ℕ
get_msb value = bit_and (value / 256 % 256) 0xff

-- `static_cast<uint8_t>(value & 0xFF)`
unfoldable pub get_lsb : ℕ → ℕ
get_lsb value = bit_and value 0xff % 256
