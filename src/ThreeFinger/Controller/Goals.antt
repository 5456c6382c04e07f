-- ===== src/ThreeFinger/Controller/Goals.antt =====
-- The goals of the action `move` of the controller node: the message, the command of a goal and the
-- statuses that answer it.
use Prim.Native.String.{String}
use ur5_ros.Common.{ℕ, not, Bool, true, false, ◌&&◌, ◌||◌, ◌==◌, ltb}
use ur5_ros.Common.Double.{ℤ}
use ur5_ros.ThreeFinger.Messages.{
  Command, Status, empty_command, empty_status, initialization_ready, motion_moving,
  motion_partial_contact, motion_all_contact,
}

-- robotiq_3f_interfaces/action/Move.action. The timeout is a builtin_interfaces/Duration.
pub record Goal : Type 0 where
  pub mode : ℕ
  pub individual_finger_control : Bool
  pub individual_scissor_control : Bool
  pub position_a : ℕ
  pub speed_a : ℕ
  pub force_a : ℕ
  pub position_b : ℕ
  pub speed_b : ℕ
  pub force_b : ℕ
  pub position_c : ℕ
  pub speed_c : ℕ
  pub force_c : ℕ
  pub position_scissor : ℕ
  pub speed_scissor : ℕ
  pub force_scissor : ℕ
  pub timeout_sec : ℤ
  pub timeout_nanosec : ℕ

pub record MoveResult : Type 0 where
  pub reached_requested_position : Bool
  pub stopped_due_to_contact : Bool
  pub fault_status : ℕ
  pub message : String
  pub final_status : Status

abbrev pub empty_result : MoveResult
empty_result = record {
  reached_requested_position = false;
  stopped_due_to_contact = false;
  fault_status = 0;
  message = "";
  final_status = empty_status;
}

unfoldable pub move_command : Goal → Command
move_command g = record empty_command {
  activate = true;
  mode = g.mode;
  go_to = true;
  individual_finger_control = g.individual_finger_control;
  individual_scissor_control = g.individual_scissor_control;
  position_a = g.position_a;
  speed_a = g.speed_a;
  force_a = g.force_a;
  position_b = g.position_b;
  speed_b = g.speed_b;
  force_b = g.force_b;
  position_c = g.position_c;
  speed_c = g.speed_c;
  force_c = g.force_c;
  position_scissor = g.position_scissor;
  speed_scissor = g.speed_scissor;
  force_scissor = g.force_scissor;
}

unfoldable pub has_fault : Status → Bool
has_fault s = not (ltb s.fault_status 0x09)

unfoldable pub has_contact : Status → Bool
has_contact s = s.motion_status == motion_partial_contact || s.motion_status == motion_all_contact

unfoldable pub has_settled : Status → Bool
has_settled s = not (s.motion_status == motion_moving) || has_fault s

unfoldable pub matches_goal : Goal → ℕ → Status → Bool
matches_goal g id s =
    s.last_command_id == id
    && s.mode == g.mode
    && s.go_to
    && s.initialization_status == initialization_ready
    && s.requested_position_a == g.position_a
    && (not g.individual_finger_control
        || s.requested_position_b == g.position_b && s.requested_position_c == g.position_c)
    && (not g.individual_scissor_control || s.requested_position_scissor == g.position_scissor)
    && has_settled s

unfoldable pub is_ready : Status → Bool
is_ready s = s.activated && s.initialization_status == initialization_ready
