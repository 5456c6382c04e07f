-- ===== src/ThreeFinger/Protocol.antt =====
-- robotiq_3f_driver/src/protocol.cpp. A process image is the list of its 16 bytes.
pub mod Command
pub mod Status
use ur5_ros.Common.{
  ℕ, ◌*◌, ◌/◌, ◌%◌, bit_and, bit_or, Bool, true, false, Option, none, some, List, [], ◌∷◌, get_or,
  ltb, ◌!=◌, if◌then◌else◌,
}
use ur5_ros.ThreeFinger.Messages
use ur5_ros.ThreeFinger.Messages.{empty_status}

abbrev pub process_image_size : ℕ
process_image_size = 16

abbrev pub ProcessImage : Type 0
ProcessImage = List ℕ

-- The bits of the first two bytes.
unfoldable pub action_byte : Bool → ℕ → Bool → Bool → ℕ
action_byte activate mode go_to automatic_release =
    bit_or
      (bit_or (bit_or (if activate then 0x01 else 0x00) (bit_and mode 0x03 * 2))
        (if go_to then 0x08 else 0x00))
      (if automatic_release then 0x10 else 0x00)
    % 256

unfoldable pub option_byte : Bool → Bool → Bool → ℕ
option_byte glove_mode finger_control scissor_control =
    bit_or (bit_or (if glove_mode then 0x01 else 0x00) (if finger_control then 0x04 else 0x00))
      (if scissor_control then 0x08 else 0x00)
    % 256

-- `none` is the std::invalid_argument of a mode above 3.
unfoldable pub pack_command : Messages.Command → Option ProcessImage
pack_command c =
    if ltb 3 c.mode
    then none
    else some (
        action_byte c.activate c.mode c.go_to c.automatic_release
        ∷ option_byte c.glove_mode c.individual_finger_control c.individual_scissor_control
        ∷ 0
        ∷ c.position_a
        ∷ c.speed_a
        ∷ c.force_a
        ∷ c.position_b
        ∷ c.speed_b
        ∷ c.force_b
        ∷ c.position_c
        ∷ c.speed_c
        ∷ c.force_c
        ∷ c.position_scissor
        ∷ c.speed_scissor
        ∷ c.force_scissor
        ∷ 0
        ∷ [])

-- `(byte >> k) & 0x03`, with the divisor 2 ^ k.
unfoldable pub two_bits : ℕ → ℕ → ℕ
two_bits byte divisor = bit_and (byte / divisor) 0x03 % 256

-- The fields of the transport keep the values of an empty message.
unfoldable pub unpack_status : ProcessImage → Messages.Status
unfolding two_bits
unpack_status image = record empty_status {
  activated = bit_and (byte 0) 0x01 != 0;
  mode = two_bits (byte 0) 2;
  go_to = bit_and (byte 0) 0x08 != 0;
  initialization_status = two_bits (byte 0) 16;
  motion_status = two_bits (byte 0) 64;
  object_status_a = bit_and (byte 1) 0x03 % 256;
  object_status_b = two_bits (byte 1) 4;
  object_status_c = two_bits (byte 1) 16;
  object_status_scissor = two_bits (byte 1) 64;
  fault_status = byte 2;
  requested_position_a = byte 3;
  actual_position_a = byte 4;
  current_a = byte 5;
  requested_position_b = byte 6;
  actual_position_b = byte 7;
  current_b = byte 8;
  requested_position_c = byte 9;
  actual_position_c = byte 10;
  current_c = byte 11;
  requested_position_scissor = byte 12;
  actual_position_scissor = byte 13;
  current_scissor = byte 14;
}
  where
    byte : ℕ → ℕ
    byte i = get_or image i 0
