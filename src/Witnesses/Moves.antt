-- ===== src/Witnesses/Moves.antt =====
-- The execution of a move by the three-finger gripper's controller node.
use ur5_ros.ThreeFinger.Controller.Move.Endings.{MoveEnding, execute_move-MoveEnding}
use ur5_ros.ThreeFinger.Controller.Move.{
  Execution, Finished, execute_move, move_from, succeeded, aborted, after_move, finish_move,
  completed_move, move_timeout, requested_timeout, of_signed, may_stop, send_stop, failure_outcome,
  failure_message,
}
use ur5_ros.ThreeFinger.Controller.Goals.{
  Goal, move_command, MoveResult, empty_result, matches_goal, has_settled, has_fault, has_contact,
  is_ready,
}
use ur5_ros.Common.Double.{pos}
use ur5_ros.Witnesses.Doubles.{whole_numbers}
use ur5_ros.Common.{◌≡◌, refl, true, false, some, List, [], ◌∷◌}
use ur5_ros.ThreeFinger.Messages.{Status}
use ur5_ros.ThreeFinger.Controller.{
  Controller, Event, status_received, on_events, on_event, receive_status, current_status, is_stale,
  publish_command, numbered, release,
}
use ur5_ros.ThreeFinger.Controller.Wait.{
  wait_for_status, round_verdict, status_verdict, or_deadline, deadline_verdict, settle, looks,
  seen_status, seen_feedback,
}
use ur5_ros.ThreeFinger.Controller.Operations.{publish_and_wait, prefixed}
use ur5_ros.Witnesses.Controller.{config, status_ready, round_with, busy_controller, to_text}

-- A move of finger A that stops at an object after the gripper has echoed the goal.
abbrev goal : Goal
goal = record {
  mode = 1;
  individual_finger_control = false;
  individual_scissor_control = false;
  position_a = 200;
  speed_a = 100;
  force_a = 50;
  position_b = 0;
  speed_b = 0;
  force_b = 0;
  position_c = 0;
  speed_c = 0;
  force_c = 0;
  position_scissor = 0;
  speed_scissor = 0;
  force_scissor = 0;
  timeout_sec = pos 0;
  timeout_nanosec = 0;
}

abbrev status_contact : Status
status_contact = record (status_ready 1) {
  go_to = true;
  motion_status = 2;
  requested_position_a = 200;
}

-- In the second execution the statuses become stale: the wait fails, and the stop is published.
abbrev execution_with : List Event → Execution
execution_with events = record {
  events = [];
  now = 20;
  attempt = record {
    events = [];
    started_at = 20;
    rounds = round_with [] 21 ∷ round_with events 90 ∷ [];
  };
  canceling = false;
  late_events = [];
}

abbrev moved_controller : Controller
moved_controller = release (
    on_event config (status_received status_contact 80)
      (publish_command (move_command goal) busy_controller))

abbrev contact_result : Finished MoveResult
contact_result = record {
  outcome = succeeded;
  result = record {
    reached_requested_position = false;
    stopped_due_to_contact = true;
    fault_status = 0;
    message = "motion stopped after object contact";
    final_status = status_contact;
  };
  feedback = status_ready 0 ∷ status_contact ∷ [];
}

abbrev stale_controller : Controller
stale_controller = release (
    publish_command (record (move_command goal) { go_to = false })
      (publish_command (move_command goal) busy_controller))

abbrev stale_result : Finished MoveResult
stale_result = record {
  outcome = aborted;
  result = record empty_result {
    message = "gripper status is stale. Stop sent";
    final_status = status_ready 0;
  };
  feedback = status_ready 0 ∷ status_ready 0 ∷ [];
}

contact_run :
    execute_move to_text whole_numbers config goal
      (execution_with (status_received status_contact 80 ∷ []))
      busy_controller
    ≡ some (contact_result, moved_controller)
unfolding execute_move move_from after_move finish_move completed_move move_timeout
    requested_timeout of_signed publish_and_wait current_status is_stale receive_status on_event
    on_events wait_for_status round_verdict status_verdict or_deadline deadline_verdict settle looks
    seen_status seen_feedback matches_goal has_settled has_fault has_contact is_ready move_command
    publish_command numbered release
contact_run = refl

stale_run :
    execute_move to_text whole_numbers config goal (execution_with []) busy_controller
    ≡ some (stale_result, stale_controller)
unfolding execute_move move_from after_move finish_move completed_move move_timeout
    requested_timeout of_signed publish_and_wait current_status is_stale receive_status on_event
    on_events wait_for_status round_verdict status_verdict or_deadline deadline_verdict settle looks
    seen_status seen_feedback matches_goal has_settled has_fault has_contact is_ready move_command
    publish_command numbered release may_stop send_stop failure_outcome failure_message prefixed
stale_run = refl

execute_move-MoveEnding_example :
    MoveEnding whole_numbers config goal
      (execution_with [])
      (on_events config [] busy_controller)
      stale_result
      stale_controller
execute_move-MoveEnding_example =
    execute_move-MoveEnding to_text whole_numbers config goal (execution_with []) busy_controller
      stale_result stale_controller stale_run
