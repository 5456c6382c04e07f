-- ===== src/ThreeFinger/Protocol/Status.antt =====
-- The status image, and what of it `unpack_status` keeps.
use ur5_ros.Common.{
  ℕ, ◌+◌, ◌*◌, ◌/◌, ◌%◌, ◌<◌, ◌≡◌, arith, Bool, true, false, List, [], ◌∷◌, ◌!=◌, bit_and,
}
use ur5_ros.Common.Bits.{bit_and-one, bit_and-low_two, bit_and-bit3}
use ur5_ros.ThreeFinger.Messages.{Status}
use ur5_ros.ThreeFinger.Protocol.{two_bits, unpack_status}

abbrev pub flag : Bool → ℕ
flag true = 1
flag false = 0

-- The image that the manual gives for a status; its last byte is reserved.
pub status_image : Status → List ℕ
status_image s =
    (flag s.activated
      + 2 * s.mode
      + 8 * flag s.go_to
      + 16 * s.initialization_status
      + 64 * s.motion_status)
    ∷ (s.object_status_a
        + 4 * s.object_status_b
        + 16 * s.object_status_c
        + 64 * s.object_status_scissor)
    ∷ s.fault_status
    ∷ s.requested_position_a
    ∷ s.actual_position_a
    ∷ s.current_a
    ∷ s.requested_position_b
    ∷ s.actual_position_b
    ∷ s.current_b
    ∷ s.requested_position_c
    ∷ s.actual_position_c
    ∷ s.current_c
    ∷ s.requested_position_scissor
    ∷ s.actual_position_scissor
    ∷ s.current_scissor
    ∷ 0
    ∷ []

two_bits_lem : (byte divisor : ℕ) → two_bits byte divisor ≡ byte / divisor % 4
unfolding two_bits
two_bits_lem byte divisor = omega (arith, bit_and-low_two (byte / divisor))

low_two_lem : (byte : ℕ) → bit_and byte 0x03 % 256 ≡ byte % 4
low_two_lem byte = omega (arith, bit_and-low_two byte)

flag-bit0 : (byte : ℕ) → flag (bit_and byte 0x01 != 0) ≡ byte % 2
flag-bit0 byte = ground (arith, bit_and-one byte)

flag-bit3 : (byte : ℕ) → flag (bit_and byte 0x08 != 0) ≡ byte / 8 % 2
flag-bit3 byte = ground (arith, bit_and-bit3 byte)

bytes_joined :
    (b : ℕ)
    → b < 256
    → b % 2 + 2 * (b / 2 % 4) + 8 * (b / 8 % 2) + 16 * (b / 16 % 4) + 64 * (b / 64 % 4) ≡ b
bytes_joined b h = omega arith

pairs_joined :
    (b : ℕ) → b < 256 → b % 4 + 4 * (b / 4 % 4) + 16 * (b / 16 % 4) + 64 * (b / 64 % 4) ≡ b
pairs_joined b h = omega arith

-- Nothing but the reserved last byte is lost: the status that `unpack_status` makes of 16 bytes has
-- these bytes for its image, the last one replaced by 0.
pub status_image-unpack_status :
    (b0 b1 b2 b3 b4 b5 b6 b7 b8 b9 b10 b11 b12 b13 b14 b15 : ℕ)
    → b0 < 256
    → b1 < 256
    → status_image (
        unpack_status (
          b0 ∷ b1 ∷ b2 ∷ b3 ∷ b4 ∷ b5 ∷ b6 ∷ b7 ∷ b8 ∷ b9 ∷ b10 ∷ b11 ∷ b12 ∷ b13 ∷ b14 ∷ b15 ∷ []))
      ≡ b0 ∷ b1 ∷ b2 ∷ b3 ∷ b4 ∷ b5 ∷ b6 ∷ b7 ∷ b8 ∷ b9 ∷ b10 ∷ b11 ∷ b12 ∷ b13 ∷ b14 ∷ 0 ∷ []
unfolding status_image unpack_status
status_image-unpack_status b0 b1 b2 b3 b4 b5 b6 b7 b8 b9 b10 b11 b12 b13 b14 b15 h k = rw (
  two_bits_lem b0 2,
  two_bits_lem b0 16,
  two_bits_lem b0 64,
  flag-bit0 b0,
  flag-bit3 b0,
  low_two_lem b1,
  two_bits_lem b1 4,
  two_bits_lem b1 16,
  two_bits_lem b1 64,
  bytes_joined b0 h,
  pairs_joined b1 k,
)
