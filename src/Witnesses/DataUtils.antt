-- ===== src/Witnesses/DataUtils.antt =====
-- robotiq_driver/tests/test_data_utils.cpp, and the theorems on data_utils.cpp at its inputs.
use ur5_ros.Common.{ℕ, ◌+◌, ◌*◌, ◌<◌, ◌≡◌, refl, some, List, [], ◌∷◌, arith}
use Prim.Native.String.{String}
use Prim.Native.Char.{code}
use ur5_ros.DataUtils.{v_chars, to_hex, to_hex_words, to_binary_string, get_msb, get_lsb}
use ur5_ros.DataUtils.Words.{get_msb-get_lsb}
use ur5_ros.DataUtils.Hex.{read_hex, read_hex-to_hex}

abbrev codes : String → List ℕ
codes String.[] = []
codes (String.◌∷◌ c s) = code c ∷ codes s

some_bytes : to_hex (255 ∷ 121 ∷ 56 ∷ 33 ∷ 125 ∷ 60 ∷ []) ≡ codes "FF 79 38 21 7D 3C"
unfolding to_hex v_chars
some_bytes = refl

some_words : to_hex_words (1169 ∷ 58544 ∷ 14917 ∷ []) ≡ codes "0491 E4B0 3A45"
unfolding to_hex_words v_chars
some_words = refl

some_digits : to_binary_string 155 ≡ codes "10011011"
unfolding to_binary_string
some_digits = refl

get_msb-get_lsb_example :
    (get_msb 0x14a2 * 256 + get_lsb 0x14a2 ≡ 0x14a2)
    × (get_msb 0x14a2 < 256)
    × (get_lsb 0x14a2 < 256)
get_msb-get_lsb_example = get_msb-get_lsb 0x14a2 (omega arith)

read_hex-to_hex_example : read_hex (to_hex (255 ∷ 121 ∷ 0 ∷ [])) ≡ some (255 ∷ 121 ∷ 0 ∷ [])
read_hex-to_hex_example = read_hex-to_hex (255 ∷ 121 ∷ 0 ∷ []) (omega arith)
