-- ===== src/ThreeFinger/Controller/Invariant/Actions.antt =====
-- The actions of the controller node keep its invariant and leave the flag of the operations free.
use Prim.Native.String.{String}
use ur5_ros.Common.{
  [], ℕ, refl, ◌≤◌, Bool, true, false, not, if◌then◌else◌, Option, none, some, arith,
}
use ur5_ros.Common.Double.{Double}
use ur5_ros.Common.Result.{Result, ok, err}
use ur5_ros.ThreeFinger.Messages.{Command, Status}
use ur5_ros.ThreeFinger.Controller.{Config, Controller, on_events, current_status, release}
use ur5_ros.ThreeFinger.Controller.Wait.{Waited}
use ur5_ros.ThreeFinger.Controller.Operations.{publish_and_wait}
use ur5_ros.ThreeFinger.Controller.Goals.{empty_result, Goal, move_command, is_ready, matches_goal}
use ur5_ros.ThreeFinger.Controller.Move.{
  Execution, Outcome, execute_move, move_from, after_move, finish_move, send_stop, may_stop,
  move_timeout,
}
use ur5_ros.ThreeFinger.Controller.Parameters.{GripperParameters, gripper_command_position_to_raw}
use ur5_ros.ThreeFinger.Controller.GripperCommand.{
  fill_gripper_command_state, execute_gripper_command, gripper_command_from, after_gripper_command,
  finish_gripper_command, gripper_command, grasp_command, matches_grasp,
}
use ur5_ros.ThreeFinger.Controller.Invariant.{
  Invariant, Safe, ValidEvents, ValidAttempt, Leaves, on_events-Invariant,
  publish_command-Invariant, publish_and_wait-Invariant,
}
use ur5_ros.ThreeFinger.Controller.Invariant.Services.{AtRest, released}

pub record ValidExecution (x : Execution) : Type 0 where
  pub events : ValidEvents x.events
  pub attempt : ValidAttempt x.attempt
  pub late_events : ValidEvents x.late_events

send_stop-Invariant :
    (k : Config) (x : Execution) (sent : Bool) (command : Command) (c : Controller)
    → ValidExecution x
    → Safe command
    → Invariant c
    → Invariant (send_stop k x.late_events sent command c)
unfolding send_stop
send_stop-Invariant k x true command c v s i =
    publish_command-Invariant (record command { go_to = false }) (on_events k x.late_events c)
      (record { mode = s.mode; release = s.release })
      (on_events-Invariant k x.late_events c v.late_events i)
send_stop-Invariant k x false command c v s i =
    on_events-Invariant k x.late_events c v.late_events i

-- A goal that was accepted has a mode of the gripper.
pub move-Safe : (g : Goal) → g.mode ≤ 3 → Safe (move_command g)
unfolding move_command
move-Safe g m = record { mode = m; release = refl }

module _ (to_string : ℕ → String) where
  finish_move-AtRest :
      (k : Config) (connection_id : ℕ) (command : Command) (x : Execution)
      (v : Result String (Unit {0})) (w : Waited) (c : Controller)
      → ValidExecution x
      → Safe command
      → Invariant c
      → AtRest (finish_move to_string k connection_id command x v w c).1
  unfolding finish_move
  finish_move-AtRest k connection_id command x (ok tt) w c v s i = released c i
  finish_move-AtRest k connection_id command x (err reason) w c v s i =
      let sent = may_stop connection_id w.final_status in
      released (send_stop k x.late_events sent command c)
        (send_stop-Invariant k x sent command c v s i)

  after_move-AtRest :
      (k : Config) (connection_id : ℕ) (command : Command) (x : Execution)
      (o : Option (Waited × Controller))
      → ValidExecution x
      → Safe command
      → Leaves Invariant o
      → Leaves AtRest (after_move to_string k connection_id command x o)
  unfolding after_move Leaves
  after_move-AtRest k connection_id command x none v s i = tt
  after_move-AtRest k connection_id command x (some (w, c)) v s i =
      finish_move-AtRest k connection_id command x w.verdict w c v s i

  move_from-AtRest :
      (D : Double) (k : Config) (g : Goal) (x : Execution) (s : Result String Status)
      (c : Controller)
      → g.mode ≤ 3
      → ValidExecution x
      → Invariant c
      → Leaves AtRest (move_from to_string D k g x s c)
  unfolding move_from Leaves
  move_from-AtRest D k g x (err reason) c m v i = released c i
  move_from-AtRest D k g x (ok status) c m v i = by_ready (is_ready status)
    where
      waited : Option (Waited × Controller)
      waited =
          publish_and_wait k (move_timeout D k g) status.connection_id (move_command g)
            (matches_goal g) x.attempt status c

      by_ready :
          (b : Bool)
          → Leaves AtRest (
              if not b
              then some (
                record {
                  outcome = Outcome.aborted;
                  result = record empty_result {
                    message = "gripper is not activated and ready";
                    final_status = status;
                  };
                  feedback = [];
                },
                release c,
              )
              else after_move to_string k status.connection_id (move_command g) x waited)
      by_ready false = released c i
      by_ready true =
          after_move-AtRest k status.connection_id (move_command g) x waited v (move-Safe g m) (
            publish_and_wait-Invariant k (move_timeout D k g) status.connection_id (move_command g)
              (matches_goal g) x.attempt status c v.attempt (move-Safe g m) i)

  pub execute_move-AtRest :
      (D : Double) (k : Config) (g : Goal) (x : Execution) (c : Controller)
      → g.mode ≤ 3
      → ValidExecution x
      → Invariant c
      → Leaves AtRest (execute_move to_string D k g x c)
  unfolding execute_move
  execute_move-AtRest D k g x c m v i =
      let before : Controller = on_events k x.events c in
      move_from-AtRest D k g x (current_status k x.now before) before m v
        (on_events-Invariant k x.events c v.events i)

module _ (D : Double) (p : GripperParameters D) where
  finish_gripper_command-AtRest :
      (k : Config) (connection_id : ℕ) (command : Command) (x : Execution)
      (v : Result String (Unit {0})) (w : Waited) (c : Controller)
      → ValidExecution x
      → Safe command
      → Invariant c
      → AtRest (finish_gripper_command D p k connection_id command x v w c).1
  unfolding finish_gripper_command
  finish_gripper_command-AtRest k connection_id command x (ok tt) w c v s i = released c i
  finish_gripper_command-AtRest k connection_id command x (err reason) w c v s i =
      let sent = may_stop connection_id w.final_status in
      released (send_stop k x.late_events sent command c)
        (send_stop-Invariant k x sent command c v s i)

  after_gripper_command-AtRest :
      (k : Config) (connection_id : ℕ) (command : Command) (x : Execution)
      (o : Option (Waited × Controller))
      → ValidExecution x
      → Safe command
      → Leaves Invariant o
      → Leaves AtRest (after_gripper_command D p k connection_id command x o)
  unfolding after_gripper_command Leaves
  after_gripper_command-AtRest k connection_id command x none v s i = tt
  after_gripper_command-AtRest k connection_id command x (some (w, c)) v s i =
      finish_gripper_command-AtRest k connection_id command x w.verdict w c v s i

  grasp-Safe : (position effort : D.Carrier) → Safe (gripper_command D p position effort)
  unfolding gripper_command grasp_command
  grasp-Safe position effort = record { mode = omega arith; release = refl }

  gripper_command_from-AtRest :
      (k : Config) (position effort : D.Carrier) (x : Execution) (s : Result String Status)
      (c : Controller)
      → ValidExecution x
      → Invariant c
      → Leaves AtRest (gripper_command_from D p k position effort x s c)
  unfolding gripper_command_from Leaves
  gripper_command_from-AtRest k position effort x (err reason) c v i = released c i
  gripper_command_from-AtRest k position effort x (ok status) c v i = by_ready (is_ready status)
    where
      command : Command
      command = gripper_command D p position effort

      waited : Option (Waited × Controller)
      waited =
          publish_and_wait k k.default_move_timeout status.connection_id command
            (matches_grasp D p (gripper_command_position_to_raw D p position)) x.attempt status c

      by_ready :
          (b : Bool)
          → Leaves AtRest (
              if not b
              then some (
                record {
                  outcome = Outcome.aborted;
                  result = fill_gripper_command_state D p status;
                  feedback = [];
                },
                release c,
              )
              else after_gripper_command D p k status.connection_id command x waited)
      by_ready false = released c i
      by_ready true =
          after_gripper_command-AtRest k status.connection_id command x waited v
            (grasp-Safe position effort)
            (publish_and_wait-Invariant k k.default_move_timeout status.connection_id command
              (matches_grasp D p (gripper_command_position_to_raw D p position)) x.attempt status c
              v.attempt (grasp-Safe position effort) i)

  pub execute_gripper_command-AtRest :
      (k : Config) (position effort : D.Carrier) (x : Execution) (c : Controller)
      → ValidExecution x
      → Invariant c
      → Leaves AtRest (execute_gripper_command D p k position effort x c)
  unfolding execute_gripper_command
  execute_gripper_command-AtRest k position effort x c v i =
      let before : Controller = on_events k x.events c in
      gripper_command_from-AtRest k position effort x (current_status k x.now before) before v
        (on_events-Invariant k x.events c v.events i)
