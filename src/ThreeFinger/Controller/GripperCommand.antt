-- ===== src/ThreeFinger/Controller/GripperCommand.antt =====
-- The action `gripper_command` of the controller node, which drives the three fingers together.
pub mod Endings
use Prim.Native.String.{String}
use ur5_ros.Common.{
  ℕ, ◌%◌, not, Bool, true, false, ◌&&◌, ◌==◌, if◌then◌else◌, [], Option, none, some,
}
use ur5_ros.Common.Double.{Double}
use ur5_ros.Common.Result.{Result, ok, err}
use ur5_ros.ThreeFinger.Messages.{
  Command, Status, empty_command, mode_pinch, initialization_ready, motion_reached,
}
use ur5_ros.ThreeFinger.Controller.{Config, Controller, on_events, current_status, release}
use ur5_ros.ThreeFinger.Controller.Wait.{Waited}
use ur5_ros.ThreeFinger.Controller.Operations.{publish_and_wait}
use ur5_ros.ThreeFinger.Controller.Move.{
  Finished, Execution, aborted, succeeded, may_stop, send_stop, failure_outcome, claim_operation,
}
use ur5_ros.ThreeFinger.Controller.Parameters.{
  GripperParameters, gripper_command_position_to_raw, gripper_command_raw_to_position,
  gripper_command_effort_to_raw, position_accepted, effort_accepted,
}
use ur5_ros.ThreeFinger.Controller.Goals.{has_fault, has_contact, has_settled, is_ready}

pub record GripperState (D : Double) : Type 0 where
  pub position : D.Carrier
  pub effort : D.Carrier
  pub stalled : Bool
  pub reached_goal : Bool

module _ (D : Double) (p : GripperParameters D) where
  unfoldable pub fill_gripper_command_state : Status → GripperState D
  fill_gripper_command_state s = record {
    position = gripper_command_raw_to_position D p s.actual_position_a;
    effort = D.of_int 0;
    stalled = has_contact s;
    reached_goal = s.motion_status == motion_reached;
  }

  -- The result of a goal that is aborted before a status is known: all zeros.
  unfoldable pub empty_state : GripperState D
  empty_state = record {
    position = D.of_int 0;
    effort = D.of_int 0;
    stalled = false;
    reached_goal = false;
  }

  unfoldable pub handle_gripper_command_goal :
      (position effort : D.Carrier) → Controller → Bool × Controller
  handle_gripper_command_goal position effort c =
      if not (position_accepted D p position)
      then (false, c)
      else if not (effort_accepted D p effort)
      then (false, c)
      else claim_operation c

  unfoldable pub grasp_command : (position effort speed : ℕ) → Command
  grasp_command position effort speed = record empty_command {
    activate = true;
    mode = mode_pinch;
    go_to = true;
    position_a = position;
    speed_a = speed;
    force_a = effort;
    position_b = position;
    speed_b = speed;
    force_b = effort;
    position_c = position;
    speed_c = speed;
    force_c = effort;
    speed_scissor = speed;
    force_scissor = effort;
  }

  unfoldable pub gripper_command : (position effort : D.Carrier) → Command
  gripper_command position effort =
      grasp_command (gripper_command_position_to_raw D p position)
        (gripper_command_effort_to_raw D p effort) (p.speed % 256)

  unfoldable pub matches_grasp : (position_raw id : ℕ) → Status → Bool
  matches_grasp position_raw id s =
      s.last_command_id == id
      && s.mode == mode_pinch
      && s.go_to
      && s.initialization_status == initialization_ready
      && s.requested_position_a == position_raw
      && has_settled s

  unfoldable pub finish_gripper_command :
      Config
      → (connection_id : ℕ) → Command
      → Execution
      → Result String (Unit {0})
      → Waited
      → Controller
      → Finished (GripperState D) × Controller
  finish_gripper_command k connection_id command x (ok _) w c = (
    record {
      outcome = if has_fault w.final_status then aborted else succeeded;
      result = fill_gripper_command_state w.final_status;
      feedback = w.feedback;
    },
    release c,
  )
  finish_gripper_command k connection_id command x (err reason) w c = (
    record {
      outcome = failure_outcome x.canceling;
      result = fill_gripper_command_state w.final_status;
      feedback = w.feedback;
    },
    release (send_stop k x.late_events (may_stop connection_id w.final_status) command c),
  )

  unfoldable pub after_gripper_command :
      Config
      → (connection_id : ℕ) → Command
      → Execution
      → Option (Waited × Controller)
      → Option (Finished (GripperState D) × Controller)
  after_gripper_command k connection_id command x none = none
  after_gripper_command k connection_id command x (some (w, c)) =
      some (finish_gripper_command k connection_id command x w.verdict w c)

  unfoldable pub gripper_command_from :
      Config
      → (position effort : D.Carrier) → Execution
      → Result String Status
      → Controller
      → Option (Finished (GripperState D) × Controller)
  gripper_command_from k position effort x (err reason) c =
      some (record { outcome = aborted; result = empty_state; feedback = [] }, release c)
  gripper_command_from k position effort x (ok status) c =
      if not (is_ready status)
      then some (
        record { outcome = aborted; result = fill_gripper_command_state status; feedback = [] },
        release c,
      )
      else after_gripper_command k status.connection_id (gripper_command position effort) x (
          publish_and_wait k k.default_move_timeout status.connection_id
            (gripper_command position effort)
            (matches_grasp (gripper_command_position_to_raw D p position)) x.attempt status c)

  -- The thread of an accepted goal; its feedback is the filled state of each status.
  unfoldable pub execute_gripper_command :
      Config
      → (position effort : D.Carrier) → Execution
      → Controller
      → Option (Finished (GripperState D) × Controller)
  execute_gripper_command k position effort x c =
      let before = on_events k x.events c in
      gripper_command_from k position effort x (current_status k x.now before) before
