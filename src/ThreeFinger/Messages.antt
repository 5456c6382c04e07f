-- ===== src/ThreeFinger/Messages.antt =====
-- robotiq_3f_interfaces/msg: the command and the status of the three-finger gripper. The fields of
-- type uint8 and uint64 are numbers; the range of each is a hypothesis where it matters.
use Prim.Native.String.{String}
use ur5_ros.Common.{ℕ, Bool, false}

pub record Command : Type 0 where
  pub command_id : ℕ
  pub activate : Bool
  pub mode : ℕ
  pub go_to : Bool
  pub automatic_release : Bool
  pub glove_mode : Bool
  pub individual_finger_control : Bool
  pub individual_scissor_control : Bool
  pub position_a : ℕ
  pub speed_a : ℕ
  pub force_a : ℕ
  pub position_b : ℕ
  pub speed_b : ℕ
  pub force_b : ℕ
  pub position_c : ℕ
  pub speed_c : ℕ
  pub force_c : ℕ
  pub position_scissor : ℕ
  pub speed_scissor : ℕ
  pub force_scissor : ℕ

-- A message that is declared without values is all zeros.
abbrev pub empty_command : Command
empty_command = record {
  command_id = 0;
  activate = false;
  mode = 0;
  go_to = false;
  automatic_release = false;
  glove_mode = false;
  individual_finger_control = false;
  individual_scissor_control = false;
  position_a = 0;
  speed_a = 0;
  force_a = 0;
  position_b = 0;
  speed_b = 0;
  force_b = 0;
  position_c = 0;
  speed_c = 0;
  force_c = 0;
  position_scissor = 0;
  speed_scissor = 0;
  force_scissor = 0;
}

abbrev pub mode_basic : ℕ
mode_basic = 0

abbrev pub mode_pinch : ℕ
mode_pinch = 1

abbrev pub mode_scissor : ℕ
mode_scissor = 3

abbrev pub initialization_reset : ℕ
initialization_reset = 0

abbrev pub initialization_ready : ℕ
initialization_ready = 3

abbrev pub motion_moving : ℕ
motion_moving = 0

abbrev pub motion_partial_contact : ℕ
motion_partial_contact = 1

abbrev pub motion_all_contact : ℕ
motion_all_contact = 2

abbrev pub motion_reached : ℕ
motion_reached = 3

-- `stamp` is the time of publication.
pub record Status : Type 0 where
  pub stamp : ℕ
  pub connected : Bool
  pub connection_id : ℕ
  pub last_command_id : ℕ
  pub diagnostic : String
  pub activated : Bool
  pub mode : ℕ
  pub go_to : Bool
  pub initialization_status : ℕ
  pub motion_status : ℕ
  pub object_status_a : ℕ
  pub object_status_b : ℕ
  pub object_status_c : ℕ
  pub object_status_scissor : ℕ
  pub fault_status : ℕ
  pub requested_position_a : ℕ
  pub actual_position_a : ℕ
  pub current_a : ℕ
  pub requested_position_b : ℕ
  pub actual_position_b : ℕ
  pub current_b : ℕ
  pub requested_position_c : ℕ
  pub actual_position_c : ℕ
  pub current_c : ℕ
  pub requested_position_scissor : ℕ
  pub actual_position_scissor : ℕ
  pub current_scissor : ℕ

abbrev pub empty_status : Status
empty_status = record {
  stamp = 0;
  connected = false;
  connection_id = 0;
  last_command_id = 0;
  diagnostic = "";
  activated = false;
  mode = 0;
  go_to = false;
  initialization_status = 0;
  motion_status = 0;
  object_status_a = 0;
  object_status_b = 0;
  object_status_c = 0;
  object_status_scissor = 0;
  fault_status = 0;
  requested_position_a = 0;
  actual_position_a = 0;
  current_a = 0;
  requested_position_b = 0;
  actual_position_b = 0;
  current_b = 0;
  requested_position_c = 0;
  actual_position_c = 0;
  current_c = 0;
  requested_position_scissor = 0;
  actual_position_scissor = 0;
  current_scissor = 0;
}
