-- ===== src/Crc/Bitwise.antt =====
-- rq_com_compute_crc of robotiq_ft_sensor_hardware/src/rq_sensor_com.cpp, which works bit by bit.
use ur5_ros.Common.{
  ℕ, zero, suc, ◌/◌, bit_and, bit_xor, ◌≡◌, refl, Option, none, some, List, [], ◌∷◌, ◌==◌,
  if◌then◌else◌,
}

-- One round of `while (k < 8)`.
unfoldable pub bit_step : ℕ → ℕ
bit_step crc = if bit_and crc 1 == 0 then crc / 2 else bit_xor (crc / 2) 0xa001

-- The rounds left of that loop.
unfoldable pub bit_loop : ℕ → ℕ → ℕ
bit_loop zero crc = crc
bit_loop (suc k) crc = bit_loop k (bit_step crc)

-- One byte: the first is masked (`j == 0`), the others are not.
unfoldable pub byte_step : ℕ → ℕ → ℕ → ℕ
byte_step j byte crc = bit_loop 8 (bit_xor crc (if j == 0 then bit_and byte 0xff else byte))

-- `n` bytes are left, `j` are done, `adr` starts at the next one. A read past the end of the buffer
-- would be undefined; it reads 0 here, and no caller's length goes past its buffer.
unfoldable pub byte_loop : ℕ → ℕ → List ℕ → ℕ → ℕ
byte_loop zero j adr crc = crc
byte_loop (suc n) j [] crc = byte_loop n (suc j) [] (byte_step j 0 crc)
byte_loop (suc n) j (byte ∷ adr) crc = byte_loop n (suc j) adr (byte_step j byte crc)

-- `none` is the null pointer.
unfoldable pub rq_com_compute_crc : Option (List ℕ) → ℕ → ℕ
unfolding byte_loop byte_step bit_loop bit_step
rq_com_compute_crc none length = 0
rq_com_compute_crc (some adr) length = byte_loop length 0 adr 0xffff

check_digits :
    rq_com_compute_crc (some (0x31 ∷ 0x32 ∷ 0x33 ∷ 0x34 ∷ 0x35 ∷ 0x36 ∷ 0x37 ∷ 0x38 ∷ 0x39 ∷ [])) 9
    ≡ 0x4b37
unfolding rq_com_compute_crc
check_digits = refl
