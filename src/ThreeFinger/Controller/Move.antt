-- ===== src/ThreeFinger/Controller/Move.antt =====
-- The action `move` of the controller node: what accepts and executes a goal.
pub mod Endings
use Prim.Native.String.{String}
use ur5_ros.Common.{
  ℕ, ◌+◌, not, Bool, true, false, ◌&&◌, ◌==◌, ltb, if◌then◌else◌, List, [], Option, none, some,
}
use ur5_ros.Common.Double.{ℤ, pos, negsuc, Double}
use ur5_ros.Common.Result.{Result, ok, err}
use ur5_ros.ThreeFinger.Messages.{Command, Status, mode_scissor, motion_reached}
use ur5_ros.ThreeFinger.Controller.{
  Config, Controller, Event, on_events, current_status, publish_command, release,
}
use ur5_ros.ThreeFinger.Controller.Wait.{Waited}
use ur5_ros.ThreeFinger.Controller.Operations.{Attempt, publish_and_wait, prefixed}
use ur5_ros.ThreeFinger.Controller.Goals.{
  Goal, MoveResult, empty_result, move_command, has_fault, has_contact, matches_goal, is_ready,
}

-- The state in which a goal handle is left.
pub data Outcome : Type 0 where
  succeeded : Outcome
  aborted : Outcome
  canceled : Outcome

pub record Finished (R : Type 0) : Type 0 where
  pub outcome : Outcome
  pub result : R
  pub feedback : List Status

-- Whether a goal is accepted; an accepted goal takes the flag of the operations.
unfoldable pub claim_operation : Controller → Bool × Controller
claim_operation c = (not c.busy, record c { busy = true })

unfoldable pub handle_move_goal : Goal → Controller → Bool × Controller
handle_move_goal g c = if ltb mode_scissor g.mode then (false, c) else claim_operation c

-- What happens beside the execution of a goal: the events and the clock before the status is read,
-- the wait, and after it `is_canceling` and the events before the stop is published.
pub record Execution : Type 0 where
  pub events : List Event
  pub now : ℕ
  pub attempt : Attempt
  pub canceling : Bool
  pub late_events : List Event

unfoldable pub may_stop : (connection_id : ℕ) → Status → Bool
may_stop connection_id s = s.connected && s.connection_id == connection_id

-- The stop of a goal that did not complete.
unfoldable pub send_stop : Config → List Event → (sent : Bool) → Command → Controller → Controller
send_stop k es true command c =
    publish_command (record command { go_to = false }) (on_events k es c)
send_stop k es false command c = on_events k es c

unfoldable pub failure_outcome : (canceling : Bool) → Outcome
failure_outcome true = canceled
failure_outcome false = aborted

unfoldable pub failure_message : (canceling sent : Bool) → (reason : String) → String
failure_message true true reason = "Move cancelled. Stop sent"
failure_message true false reason = "Move cancelled. Backend unavailable"
failure_message false true reason = prefixed reason ". Stop sent"
failure_message false false reason = prefixed reason ". Backend unavailable"

unfoldable pub of_signed : (D : Double) → ℤ → D.Carrier
of_signed D (pos n) = D.of_int n
of_signed D (negsuc n) = D.sub (D.of_int 0) (D.of_int (n + 1))

unfoldable pub requested_timeout : (D : Double) → Goal → D.Carrier
requested_timeout D g =
    D.add (of_signed D g.timeout_sec) (D.div (D.of_int g.timeout_nanosec) (D.of_int 1000000000))

unfoldable pub move_timeout : Double → Config → Goal → ℕ
move_timeout D k g =
    if D.below (D.of_int 0) (requested_timeout D g)
    then D.to_duration (requested_timeout D g)
    else k.default_move_timeout

-- The end of a move whose wait succeeded; `to_string` is that of the standard library.
module _ (to_string : ℕ → String) where
  unfoldable pub completed_move : Status → Outcome × MoveResult
  completed_move s =
      let reached = s.motion_status == motion_reached in
      if has_fault s
      then (
        aborted,
        record empty_result {
          fault_status = s.fault_status;
          message = prefixed "gripper reported fault " (to_string s.fault_status);
          final_status = s;
        },
      )
      else (
        succeeded,
        record {
          reached_requested_position = reached;
          stopped_due_to_contact = has_contact s;
          fault_status = s.fault_status;
          message =
              if reached
              then "requested position reached"
              else "motion stopped after object contact";
          final_status = s;
        },
      )

  unfoldable pub finish_move :
      Config
      → (connection_id : ℕ) → Command
      → Execution
      → Result String (Unit {0})
      → Waited
      → Controller
      → Finished MoveResult × Controller
  finish_move k connection_id command x (ok _) w c = (
    record {
      outcome = (completed_move w.final_status).0;
      result = (completed_move w.final_status).1;
      feedback = w.feedback;
    },
    release c,
  )
  finish_move k connection_id command x (err reason) w c =
      let sent = may_stop connection_id w.final_status in
      (
        record {
          outcome = failure_outcome x.canceling;
          result = record empty_result {
            fault_status = w.final_status.fault_status;
            message = failure_message x.canceling sent reason;
            final_status = w.final_status;
          };
          feedback = w.feedback;
        },
        release (send_stop k x.late_events sent command c),
      )

  unfoldable pub after_move :
      Config
      → (connection_id : ℕ) → Command
      → Execution
      → Option (Waited × Controller)
      → Option (Finished MoveResult × Controller)
  after_move k connection_id command x none = none
  after_move k connection_id command x (some (w, c)) =
      some (finish_move k connection_id command x w.verdict w c)

  abbrev pub abort_with : MoveResult → Controller → Option (Finished MoveResult × Controller)
  abort_with r c = some (record { outcome = aborted; result = r; feedback = [] }, release c)

  unfoldable pub move_from :
      Double
      → Config
      → Goal
      → Execution
      → Result String Status
      → Controller
      → Option (Finished MoveResult × Controller)
  move_from D k g x (err reason) c = abort_with (record empty_result { message = reason }) c
  move_from D k g x (ok status) c =
      if not (is_ready status)
      then abort_with
          (record empty_result {
            message = "gripper is not activated and ready";
            final_status = status;
          })
          c
      else after_move k status.connection_id (move_command g) x (
          publish_and_wait k (move_timeout D k g) status.connection_id (move_command g)
            (matches_goal g) x.attempt status c)

  -- The thread of an accepted goal, which holds the flag; `none` where the rounds of the wait end.
  unfoldable pub execute_move :
      Double → Config → Goal → Execution → Controller → Option (Finished MoveResult × Controller)
  execute_move D k g x c =
      let before = on_events k x.events c in
      move_from D k g x (current_status k x.now before) before
