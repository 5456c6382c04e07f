-- ===== src/Witnesses/Grasps.antt =====
-- The execution of a gripper_command goal: the gripper closes on an object.
use ur5_ros.ThreeFinger.Controller.Wait.{
  wait_for_status, round_verdict, status_verdict, or_deadline, deadline_verdict, settle, looks,
  seen_status, seen_feedback,
}
use ur5_ros.ThreeFinger.Controller.Operations.{publish_and_wait}
use ur5_ros.Common.{◌≡◌, refl, true, false, some, [], ◌∷◌}
use ur5_ros.Common.Double.{to_uint8}
use ur5_ros.ThreeFinger.Messages.{Status}
use ur5_ros.ThreeFinger.Controller.{
  Controller, status_received, on_events, on_event, publish_command, release, current_status,
  is_stale, receive_status, numbered,
}
use ur5_ros.ThreeFinger.Controller.Move.{Execution, Finished, succeeded}
use ur5_ros.ThreeFinger.Controller.Goals.{has_settled, has_fault, has_contact, is_ready}
use ur5_ros.ThreeFinger.Controller.Parameters.{
  GripperParameters, gripper_command_position_to_raw, gripper_command_raw_to_position,
  gripper_command_effort_to_raw, opening_range, chosen_effort,
}
use ur5_ros.ThreeFinger.Controller.GripperCommand.{
  GripperState, gripper_command, execute_gripper_command, gripper_command_from,
  after_gripper_command, finish_gripper_command, grasp_command, fill_gripper_command_state,
  matches_grasp,
}
use ur5_ros.ThreeFinger.Controller.GripperCommand.Endings.{
  GraspEnding, execute_gripper_command-GraspEnding,
}
use ur5_ros.Witnesses.Doubles.{whole_numbers}
use ur5_ros.Witnesses.Controller.{config, status_ready, round_with, busy_controller}

abbrev parameters : GripperParameters whole_numbers
parameters = record {
  closed_position = 0;
  max_opening = 155;
  closed_raw = 112;
  min_effort = 15;
  max_effort = 60;
  default_effort = 30;
  speed = 20;
}

abbrev status_grasped : Status
status_grasped = record (status_ready 1) {
  mode = 1;
  go_to = true;
  motion_status = 2;
  requested_position_a = 112;
  actual_position_a = 112;
}

abbrev execution : Execution
execution = record {
  events = [];
  now = 20;
  attempt = record {
    events = [];
    started_at = 20;
    rounds = round_with [] 21 ∷ round_with (status_received status_grasped 80 ∷ []) 90 ∷ [];
  };
  canceling = false;
  late_events = [];
}

abbrev grasped_controller : Controller
grasped_controller = release (
    on_event config (status_received status_grasped 80)
      (publish_command (gripper_command whole_numbers parameters 0 0) busy_controller))

abbrev grasped_result : Finished (GripperState whole_numbers)
grasped_result = record {
  outcome = succeeded;
  result = record { position = 0; effort = 0; stalled = true; reached_goal = false };
  feedback = status_ready 0 ∷ status_grasped ∷ [];
}

grasp_run :
    execute_gripper_command whole_numbers parameters config 0 0 execution busy_controller
    ≡ some (grasped_result, grasped_controller)
unfolding execute_gripper_command gripper_command_from after_gripper_command finish_gripper_command
    gripper_command grasp_command fill_gripper_command_state matches_grasp
    gripper_command_position_to_raw gripper_command_raw_to_position gripper_command_effort_to_raw
    opening_range chosen_effort to_uint8 publish_and_wait current_status is_stale receive_status
    on_event on_events wait_for_status round_verdict status_verdict or_deadline deadline_verdict
    settle looks seen_status seen_feedback has_settled has_fault has_contact is_ready
    publish_command numbered release
grasp_run = refl

execute_gripper_command-GraspEnding_example :
    GraspEnding whole_numbers parameters config 0 0 execution
      (on_events config [] busy_controller)
      grasped_result
      grasped_controller
execute_gripper_command-GraspEnding_example =
    execute_gripper_command-GraspEnding whole_numbers parameters config 0 0 execution
      busy_controller grasped_result grasped_controller grasp_run
