-- ===== src/RobotiqDriver/Frames.antt =====
-- The data of robotiq_driver/src/default_driver.cpp: its registers and enumerations, the commands that
-- it builds, and how it reads a status response.
pub mod Check
pub mod Status
use ur5_ros.Common.{
  ℕ, ◌+◌, ◌*◌, ◌/◌, ◌%◌, bit_and, bit_or, List, [], ◌∷◌, ◌++◌, length, get_or, ◌==◌, if◌then◌else◌,
}
use ur5_ros.Crc.Lookup.{compute_crc}
use ur5_ros.DataUtils.{get_msb, get_lsb}
use ur5_ros.RobotiqDriver.Serial.{SerialError}

pub data ActivationStatus : Type 0 where
  reset active : ActivationStatus

pub data ActionStatus : Type 0 where
  stopped moving : ActionStatus

pub data GripperStatus : Type 0 where
  reset in_progress completed : GripperStatus

pub data ObjectDetectionStatus : Type 0 where
  moving object_detected_opening object_detected_closing at_requested_position :
      ObjectDetectionStatus

-- DriverException with its message, or an exception of the serial library that nothing catches.
pub data DriverError : Type 0 where
  activate_failed deactivate_failed set_position_failed read_status_failed : DriverError
  uncaught : SerialError → DriverError

abbrev pub read_function_code : ℕ
read_function_code = 0x03

abbrev pub first_output_register : ℕ
first_output_register = 0x07d0

abbrev pub num_output_registers : ℕ
num_output_registers = 0x0006

abbrev pub read_response_size : ℕ
read_response_size = 2 * num_output_registers + 5

abbrev pub write_function_code : ℕ
write_function_code = 0x10

abbrev pub action_request_register : ℕ
action_request_register = 0x03e8

abbrev pub write_response_size : ℕ
write_response_size = 8

abbrev pub response_header_size : ℕ
response_header_size = 3

abbrev pub gripper_status_index : ℕ
gripper_status_index = 0

abbrev pub position_index : ℕ
position_index = 4

abbrev pub max_retries : ℕ
max_retries = 5

-- The members of the class; all but the port are bytes or enumerations.
pub record DefaultDriver (Port : Type 0) : Type 0 where
  pub port : Port
  pub slave_address : ℕ
  pub activation_status : ActivationStatus
  pub action_status : ActionStatus
  pub gripper_status : GripperStatus
  pub object_detection_status : ObjectDetectionStatus
  pub gripper_position : ℕ
  pub commanded_gripper_speed : ℕ
  pub commanded_gripper_force : ℕ

-- The CRC goes out with the high byte of `compute_crc` first.
unfoldable pub with_crc : List ℕ → List ℕ
with_crc request = let crc = compute_crc request in request ++ get_msb crc ∷ get_lsb crc ∷ []

unfoldable pub push_words : List ℕ → List ℕ
push_words [] = []
push_words (d ∷ rest) = get_msb d ∷ get_lsb d ∷ push_words rest

-- create_read_command; `num_registers` is a byte.
unfoldable pub create_read_command : ℕ → ℕ → ℕ → List ℕ
unfolding with_crc
create_read_command slave_address first_register num_registers = with_crc (
    slave_address
    ∷ read_function_code
    ∷ get_msb first_register
    ∷ get_lsb first_register
    ∷ get_msb num_registers
    ∷ get_lsb num_registers
    ∷ [])

-- create_write_command
unfoldable pub create_write_command : ℕ → ℕ → List ℕ → List ℕ
unfolding with_crc push_words
create_write_command slave_address first_register words =
    let num_registers = length words % 65536 in
    let num_bytes = 2 * num_registers % 256 in
    with_crc (
      slave_address
      ∷ write_function_code
      ∷ get_msb first_register
      ∷ get_lsb first_register
      ∷ get_msb num_registers
      ∷ get_lsb num_registers
      ∷ num_bytes
      ∷ push_words words)

-- The three registers of set_gripper_position.
unfoldable pub position_registers : ℕ → ℕ → ℕ → List ℕ
position_registers pos speed force =
    bit_or (0x09 * 256) 0x00 % 65536
    ∷ bit_or (0x00 * 256) pos % 65536
    ∷ bit_or (speed * 256) force % 65536
    ∷ []

-- The switches of update_status. The second has no case for 2: the member keeps its value.
unfoldable pub activation_of : ℕ → ActivationStatus
activation_of byte = if bit_and byte 0x01 == 0 then ActivationStatus.reset else active

unfoldable pub action_of : ℕ → ActionStatus
action_of byte = if bit_and byte 0x08 == 0 then stopped else ActionStatus.moving

unfoldable pub gripper_of : ℕ → GripperStatus → GripperStatus
gripper_of byte old =
    let code = bit_and byte 0x30 / 16 in
    if code == 0
    then GripperStatus.reset
    else if code == 1
    then in_progress
    else if code == 3
    then completed
    else old

unfoldable pub object_of : ℕ → ObjectDetectionStatus → ObjectDetectionStatus
object_of byte old =
    let code = bit_and byte 0xc0 / 64 in
    if code == 0
    then ObjectDetectionStatus.moving
    else if code == 1
    then object_detected_opening
    else if code == 2
    then object_detected_closing
    else if code == 3
    then at_requested_position
    else old

-- The part of update_status after the check for an empty response.
unfoldable pub process_response : {Port : Type 0} → List ℕ → DefaultDriver Port → DefaultDriver Port
unfolding activation_of action_of gripper_of object_of
process_response response d =
    let byte = get_or response (response_header_size + gripper_status_index) 0 in
    record d {
      activation_status = activation_of byte;
      action_status = action_of byte;
      gripper_status = gripper_of byte d.gripper_status;
      object_detection_status = object_of byte d.object_detection_status;
      gripper_position = get_or response (response_header_size + position_index) 0;
    }
