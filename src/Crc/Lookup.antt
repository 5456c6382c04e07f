-- ===== src/Crc/Lookup.antt =====
-- compute_crc of robotiq_driver/src/crc_utils.cpp, which works byte by byte with two tables.
use ur5_ros.Common.{ℕ, ◌+◌, ◌*◌, ◌%◌, bit_xor, ◌≡◌, refl, List, [], ◌∷◌, get_or}
use ur5_ros.Crc.Tables.{crc_hi_table, crc_lo_table}

-- The two local variables of the loop.
pub record CrcState : Type 0 where
  pub crc_hi : ℕ
  pub crc_lo : ℕ

-- `uint8_t index = crc_lo ^ byte`; an index below 256 is always inside the tables.
unfoldable pub crc_step : CrcState → ℕ → CrcState
crc_step s byte =
    let index = bit_xor s.crc_lo byte % 256 in
    record {
      crc_hi = get_or crc_lo_table index 0;
      crc_lo = bit_xor s.crc_hi (get_or crc_hi_table index 0);
    }

unfoldable pub crc_loop : CrcState → List ℕ → CrcState
crc_loop s [] = s
crc_loop s (byte ∷ cmd) = crc_loop (crc_step s byte) cmd

-- `(crc_lo << 8) + crc_hi`, as uint16_t.
unfoldable pub compute_crc : List ℕ → ℕ
unfolding crc_loop crc_step
compute_crc cmd =
    let s = crc_loop (record { crc_hi = 0xff; crc_lo = 0xff }) cmd in
    (s.crc_lo * 256 + s.crc_hi) % 65536

-- tests/test_crc_utils.cpp
counting_up : compute_crc (0xa1 ∷ 0xb2 ∷ 0xc3 ∷ 0xd4 ∷ 0xe5 ∷ 0xf6 ∷ []) ≡ 0x97da
unfolding compute_crc crc_hi_table crc_lo_table
counting_up = refl

short_frame : compute_crc (0x80 ∷ 0x00 ∷ 0x00 ∷ 0x03 ∷ []) ≡ 0x69e5
unfolding compute_crc crc_hi_table crc_lo_table
short_frame = refl
