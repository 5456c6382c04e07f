-- ===== src/RobotiqDriver/Frames/Check.antt =====
-- The commands of the gripper driver, as a Modbus receiver reads them.
use ur5_ros.Common.{
  ℕ, suc, ◌+◌, ◌*◌, ◌/◌, ◌%◌, ◌≤◌, ◌<◌, ◌≡◌, refl, arith, Option, none, some, List, [], ◌∷◌, ◌++◌,
  length, All, length-append, bit_or,
}
use ur5_ros.Common.Bits.{bit_and-low_byte, bit_or_fields}
use ur5_ros.Crc.Lookup.{compute_crc}
use ur5_ros.Crc.Bitwise.{rq_com_compute_crc}
use ur5_ros.Crc.Agreement.{IsByte, compute_crc-eq}
use ur5_ros.Crc.Detection.{crc-lt, crc-append_crc}
use ur5_ros.DataUtils.{get_msb, get_lsb}
use ur5_ros.DataUtils.Words.{get_msb_lem, get_lsb_lem}
use ur5_ros.RobotiqDriver.Frames.{
  with_crc, push_words, create_read_command, create_write_command, position_registers,
  read_function_code, write_function_code,
}

abbrev pub IsWord : ℕ → Type 0
IsWord w = w < 65536

get_msb-IsByte : (w : ℕ) → get_msb w < 256
unfolding get_msb
get_msb-IsByte w = omega (arith, bit_and-low_byte (w / 256 % 256))

get_lsb-IsByte : (w : ℕ) → get_lsb w < 256
get_lsb-IsByte w = omega (arith, get_lsb_lem w)

push_words-IsByte : (words : List ℕ) → All IsByte (push_words words)
unfolding push_words
push_words-IsByte [] = tt
push_words-IsByte (w ∷ words) = (get_msb-IsByte w, (get_lsb-IsByte w, push_words-IsByte words))

-- The two bytes that follow a request are its CRC, the low byte first.
pub with_crc_lem :
    (request : List ℕ)
    → All IsByte request
    → let c = rq_com_compute_crc (some request) (length request) in
      with_crc request ≡ request ++ c % 256 ∷ c / 256 ∷ []
unfolding with_crc
with_crc_lem request bs =
    let c = rq_com_compute_crc (some request) (length request) in
    let small = crc-lt request bs in
    let whole = compute_crc-eq request bs in
    let high : get_msb (compute_crc request) ≡ c % 256 =
      omega
        (arith, get_msb_lem (compute_crc request) (omega (arith, whole, small)), whole, small) in
    let low : get_lsb (compute_crc request) ≡ c / 256 =
      omega (arith, get_lsb_lem (compute_crc request), whole, small) in
    rw (high, low)

with_crc-checks :
    (request : List ℕ)
    → All IsByte request
    → rq_com_compute_crc (some (with_crc request)) (length (with_crc request)) ≡ 0
with_crc-checks request bs =
    let c = rq_com_compute_crc (some request) (length request) in
    rw (with_crc_lem request bs, length-append request (c % 256 ∷ c / 256 ∷ []))
      (crc-append_crc request bs)

-- The six bytes before the data of every request.
head-IsByte :
    (a f register count : ℕ) (rest : List ℕ)
    → IsByte a
    → IsByte f
    → All IsByte rest
    → All IsByte
        (a ∷ f ∷ get_msb register ∷ get_lsb register ∷ get_msb count ∷ get_lsb count ∷ rest)
head-IsByte a f register count rest p q bs = (
  p,
  (
    q,
    (
      get_msb-IsByte register,
      (get_lsb-IsByte register, (get_msb-IsByte count, (get_lsb-IsByte count, bs))),
    ),
  ),
)

-- A receiver that computes the bitwise CRC over a whole write command gets 0.
pub create_write_command-checks :
    (slave_address first_register : ℕ) (words : List ℕ)
    → IsByte slave_address
    → let frame = create_write_command slave_address first_register words in
      rq_com_compute_crc (some frame) (length frame) ≡ 0
unfolding create_write_command
create_write_command-checks slave_address first_register words h =
    with_crc-checks
      (slave_address
        ∷ write_function_code
        ∷ get_msb first_register
        ∷ get_lsb first_register
        ∷ get_msb (length words % 65536)
        ∷ get_lsb (length words % 65536)
        ∷ 2 * (length words % 65536) % 256
        ∷ push_words words)
      (head-IsByte slave_address write_function_code first_register (length words % 65536)
        (2 * (length words % 65536) % 256 ∷ push_words words) h (omega arith)
        (omega arith, push_words-IsByte words))

-- A receiver that computes the bitwise CRC over a whole read command gets 0.
pub create_read_command-checks :
    (slave_address first_register num_registers : ℕ)
    → IsByte slave_address
    → let frame = create_read_command slave_address first_register num_registers in
      rq_com_compute_crc (some frame) (length frame) ≡ 0
unfolding create_read_command
create_read_command-checks slave_address first_register num_registers h =
    with_crc-checks
      (slave_address
        ∷ read_function_code
        ∷ get_msb first_register
        ∷ get_lsb first_register
        ∷ get_msb num_registers
        ∷ get_lsb num_registers
        ∷ [])
      (head-IsByte slave_address read_function_code first_register num_registers [] h (omega arith)
        tt)

-- A write request as its fields, and what a receiver makes of the bytes.
pub record WriteRequest : Type 0 where
  pub address : ℕ
  pub function : ℕ
  pub register : ℕ
  pub count : ℕ
  pub num_bytes : ℕ
  pub words : List ℕ

pub take_words : ℕ → List ℕ → List ℕ
take_words (suc n) (h ∷ l ∷ rest) = (h * 256 + l) ∷ take_words n rest
take_words _ _ = []

pub parse_write : List ℕ → Option WriteRequest
unfolding take_words
parse_write (address ∷ function ∷ rh ∷ rl ∷ ch ∷ cl ∷ n ∷ rest) = some (record {
  address = address;
  function = function;
  register = rh * 256 + rl;
  count = ch * 256 + cl;
  num_bytes = n;
  words = take_words (ch * 256 + cl) rest;
})
parse_write _ = none

join_word : (w : ℕ) → IsWord w → get_msb w * 256 + get_lsb w ≡ w
join_word w h = omega (arith, get_msb_lem w h, get_lsb_lem w)

take_words-push_words :
    (words rest : List ℕ)
    → All IsWord words
    → take_words (length words) (push_words words ++ rest) ≡ words
unfolding take_words push_words
take_words-push_words [] rest v = refl
take_words-push_words (w ∷ words) rest (h, v) =
    rw (join_word w h, take_words-push_words words rest v)

-- A write command of at most 127 registers parses back to its fields, byte count included.
pub parse_write-create_write_command :
    (slave_address first_register : ℕ) (words : List ℕ)
    → IsByte slave_address
    → IsWord first_register
    → All IsWord words
    → length words ≤ 127
    → parse_write (create_write_command slave_address first_register words)
      ≡ some (record {
        address = slave_address;
        function = 0x10;
        register = first_register;
        count = length words;
        num_bytes = 2 * length words;
        words = words;
      })
unfolding parse_write create_write_command
parse_write-create_write_command slave_address first_register words h r v n =
    let count : length words % 65536 ≡ length words = omega arith in
    let bytes : 2 * length words % 256 ≡ 2 * length words = omega arith in
    rw (
      count,
      bytes,
      join_word first_register r,
      join_word (length words) (omega arith),
      take_words-push_words words _ v,
    )

-- The registers of a move of bytes: the action bits 0x09, the position, and the speed over the
-- force.
position_registers_lem :
    (pos speed force : ℕ)
    → IsByte pos
    → IsByte speed
    → IsByte force
    → position_registers pos speed force ≡ 0x0900 ∷ pos ∷ (speed * 256 + force) ∷ []
unfolding position_registers
position_registers_lem pos speed force p s f =
    let middle : bit_or 0 pos % 65536 ≡ pos = omega (arith, bit_or_fields 8 0 pos p) in
    let last : bit_or (speed * 256) force % 65536 ≡ speed * 256 + force =
      omega (arith, bit_or_fields 8 speed force f) in
    rw (middle, last)
