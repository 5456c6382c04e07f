-- ===== src/Witnesses/Controller.antt =====
-- The three-finger gripper's controller node against statuses that are written out.
use ur5_ros.ThreeFinger.Controller.Wait.Verdicts.{AtRound}
use ur5_ros.ThreeFinger.Controller.Exclusion.{Excluded, attempt-Excluded}
use ur5_ros.ThreeFinger.Controller.Invariant.Delivery.{Reachable-admits}
use Prim.Native.String.{String}
use ur5_ros.Common.Double.{pos}
use ur5_ros.Witnesses.ThreeFinger.{ready_node}
use ur5_ros.ThreeFinger.Controller.Parameters.Bounds.{Bytes, accepted-Bytes}
use ur5_ros.ThreeFinger.DriverNode.{admits}
use ur5_ros.Witnesses.Doubles.{whole_numbers, whole_numbers-Laws}
use ur5_ros.ThreeFinger.Controller.Invariant.{ValidEvents, ValidEvent, ValidRound, ValidAttempt}
use ur5_ros.ThreeFinger.Controller.Parameters.{
  GripperParameters, configure_gripper, position_accepted, effort_accepted, checked_parameters,
  doubles_valid,
}
use ur5_ros.Common.{
  ◌+◌, ◌<◌, ◌^◌, ℕ, ◌≡◌, refl, true, false, some, List, [], ◌∷◌, length, All, arith, Bool,
}
use ur5_ros.ThreeFinger.Messages.{Command, Status, empty_status, empty_command}
use ur5_ros.ThreeFinger.Controller.{
  Config, Controller, Event, status_received, operation_requested, on_events, on_event,
  receive_status, current_status, is_stale, publish_command, numbered, begin_operation, release,
  in_range, stop_called,
}
use ur5_ros.ThreeFinger.Controller.Wait.{
  Round, wait_for_status, round_verdict, status_verdict, or_deadline, deadline_verdict, settle,
  looks, seen_status, seen_feedback, Waited,
}
use ur5_ros.ThreeFinger.Controller.Wait.Deadline.{Returns, wait_for_status-Returns}
use ur5_ros.ThreeFinger.Controller.Operations.{
  Attempt, publish_and_wait, activate, activate_from, then_activate, after_reset, end_service,
  service_response, when_begun, is_reset, is_active, activation_command,
}
use ur5_ros.ThreeFinger.Controller.Operations.Activation.{Activated, activate-Activated}
use ur5_ros.ThreeFinger.Controller.Invariant.Reachable.{new_controller, Reachable, Step}

abbrev pub config : Config
config = record {
  activation_mode = 1;
  activation_timeout = 100;
  default_move_timeout = 100;
  status_timeout = 50;
}

-- A gripper that is ready, and one that has acknowledged a reset and an activation.
abbrev pub status_ready : ℕ → Status
status_ready id = record empty_status {
  connected = true;
  connection_id = 7;
  last_command_id = id;
  activated = true;
  mode = 1;
  initialization_status = 3;
}

abbrev status_reset : ℕ → Status
status_reset id = record empty_status { connected = true; connection_id = 7; last_command_id = id }

abbrev pub round_with : List Event → ℕ → Round
round_with events now = record {
  events = events;
  cancelled = false;
  active = true;
  checked_at = now;
  ended_at = now;
}

abbrev attempt_with : List Event → Attempt
attempt_with events = record {
  events = [];
  started_at = 20;
  rounds = round_with [] 21 ∷ round_with events 23 ∷ [];
}

abbrev reset_attempt : Attempt
reset_attempt = attempt_with (operation_requested ∷ status_received (status_reset 1) 22 ∷ [])

abbrev activation_attempt : Attempt
activation_attempt = attempt_with (status_received (status_ready 2) 22 ∷ [])

abbrev pub idle : Controller
idle = on_event config (status_received (status_ready 0) 10) new_controller

-- The controller at the end of the activation.
abbrev with_command : Command → Controller → Controller
with_command c n = publish_command c n

abbrev activated_controller : Controller
activated_controller = release (
    on_event config (status_received (status_ready 2) 22) (
      publish_command (activation_command config) (
        on_event config (status_received (status_reset 1) 22)
          (publish_command empty_command (record idle { busy = true })))))

activate_run :
    activate config 20 reset_attempt activation_attempt idle
    ≡ some
        (record { success = true; message = "gripper activated and ready" }, activated_controller)
unfolding activate activate_from then_activate after_reset end_service service_response when_begun
    publish_and_wait begin_operation current_status is_stale receive_status on_event on_events
    wait_for_status round_verdict status_verdict or_deadline deadline_verdict settle looks
    seen_status seen_feedback is_reset is_active activation_command publish_command numbered release
activate_run = refl

activate-Activated_example :
    Activated config reset_attempt activation_attempt idle activated_controller
activate-Activated_example =
    activate-Activated config 20 reset_attempt activation_attempt idle activated_controller
      (record { success = true; message = "gripper activated and ready" }) activate_run refl

wait_for_status-Returns_example : Returns (λ rest.
    wait_for_status config
      (is_reset 1)
      120
      7
      (round_with [] 30 ∷ round_with [] 120 ∷ rest)
      empty_status
      []
      idle)
wait_for_status-Returns_example =
    wait_for_status-Returns config (is_reset 1) 120 7 (round_with [] 30 ∷ []) (round_with [] 120)
      empty_status [] idle refl

-- The statuses and the activation, as a run.
pub to_text : ℕ → String
to_text n = "fault"

abbrev parameters : GripperParameters whole_numbers
parameters = record {
  closed_position = 0;
  max_opening = 100;
  closed_raw = 112;
  min_effort = 10;
  max_effort = 50;
  default_effort = 30;
  speed = 20;
}

abbrev reset_valid : ValidAttempt reset_attempt
unfolding ValidEvents ValidEvent ValidRound
reset_valid = record { events = tt; rounds = (tt, ((tt, (omega arith, tt)), tt)) }

abbrev activation_valid : ValidAttempt activation_attempt
unfolding ValidEvents ValidEvent ValidRound
activation_valid = record { events = tt; rounds = (tt, ((omega arith, tt), tt)) }

abbrev idle_run : Reachable to_text whole_numbers parameters config idle
unfolding on_event
idle_run =
    Reachable.step_to Reachable.at_start (Step.status_received (status_ready 0) 10 (omega arith))

activated_run : Reachable to_text whole_numbers parameters config activated_controller
activated_run = Reachable.step_to idle_run (
    Step.activated 20 reset_attempt activation_attempt
      (record { success = true; message = "gripper activated and ready" }) reset_valid
      activation_valid activate_run)

published_two : length activated_controller.published ≡ 2
unfolding release on_event publish_command receive_status activation_command numbered
published_two = refl

Reachable-admits_example :
    All (λ (x : Command). admits ready_node x ≡ true) activated_controller.published
Reachable-admits_example =
    Reachable-admits to_text whole_numbers parameters config activated_controller (omega arith)
      activated_run (few (length activated_controller.published) published_two) ready_node refl
  where
    few : (n : ℕ) → n ≡ 2 → n + 1 < 2 ^ 64
    few n e = omega arith

accepted-Bytes_example : Bytes whole_numbers parameters 50 0
unfolding configure_gripper checked_parameters in_range doubles_valid position_accepted
    effort_accepted
accepted-Bytes_example =
    accepted-Bytes whole_numbers 0 100 10 50 30 (pos 112) (pos 20) parameters 50 0
      whole_numbers-Laws refl refl refl

abbrev pub busy_controller : Controller
busy_controller = record idle { busy = true }

abbrev reset_sent : Controller
reset_sent = publish_command empty_command busy_controller

attempt-Excluded_example :
    Excluded whole_numbers parameters config
      (on_events config (stop_called 22 ∷ []) busy_controller)
    × Excluded whole_numbers parameters config (on_events config (stop_called 22 ∷ []) reset_sent)
    × ((r : Round) (d : Controller)
        → AtRound config reset_attempt.rounds reset_sent r d
        → Excluded whole_numbers parameters config (on_events config (stop_called 22 ∷ []) d))
    × ((timeout connection_id : ℕ) (matches : ℕ → Status → Bool) (final : Status) (w : Waited)
          (d : Controller)
        → publish_and_wait config timeout connection_id empty_command matches reset_attempt final
            busy_controller
          ≡ some (w, d)
        → Excluded whole_numbers parameters config (on_events config (stop_called 22 ∷ []) d))
unfolding on_events
attempt-Excluded_example =
    attempt-Excluded whole_numbers parameters config empty_command reset_attempt busy_controller
      refl (stop_called 22 ∷ [])
