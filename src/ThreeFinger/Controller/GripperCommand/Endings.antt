-- ===== src/ThreeFinger/Controller/GripperCommand/Endings.antt =====
-- The ways in which the execution of a gripper_command goal ends.
use Prim.Native.String.{String}
use mathlib.Core.Path.{subst}
use ur5_ros.Common.{
  refl, ◌≡◌, ap, sym, ◌∙◌, Bool, true, false, not, if◌then◌else◌, Option, none, some, [],
}
use ur5_ros.Common.Double.{Double}
use ur5_ros.Common.Result.{Result, ok, err}
use ur5_ros.ThreeFinger.Messages.{Status}
use ur5_ros.ThreeFinger.Controller.{
  Config, Controller, on_events, current_status, publish_command, release,
}
use ur5_ros.ThreeFinger.Controller.Wait.{Waited}
use ur5_ros.ThreeFinger.Controller.Wait.Verdicts.{Answered}
use ur5_ros.ThreeFinger.Controller.Operations.{publish_and_wait}
use ur5_ros.ThreeFinger.Controller.Operations.Services.{
  publish_and_wait-Answered, current_status-ok,
}
use ur5_ros.ThreeFinger.Controller.Goals.{has_fault, is_ready}
use ur5_ros.ThreeFinger.Controller.Parameters.{GripperParameters, gripper_command_position_to_raw}
use ur5_ros.ThreeFinger.Controller.Move.{
  Finished, Execution, succeeded, aborted, send_stop, may_stop, failure_outcome,
}
use ur5_ros.ThreeFinger.Controller.Move.Endings.{may_stop-both, same_result}
use ur5_ros.ThreeFinger.Controller.GripperCommand.{
  GripperState, fill_gripper_command_state, gripper_command, matches_grasp, finish_gripper_command,
  after_gripper_command, gripper_command_from, execute_gripper_command,
}

module _ (D : Double) (p : GripperParameters D) (k : Config) (position effort : D.Carrier)
    (x : Execution) (before : Controller) where
  -- The command of the goal is published and its status is waited for.
  abbrev pub wait_of_grasp : Option (Waited × Controller)
  wait_of_grasp =
      publish_and_wait k k.default_move_timeout before.current_status.connection_id
        (gripper_command D p position effort)
        (matches_grasp D p (gripper_command_position_to_raw D p position)) x.attempt
        before.current_status before

  -- The wait of the goal has seen a fresh status that answers its command: closed to the goal's
  -- position, ready and settled.
  abbrev pub Grasped : Waited → Controller → Type 0
  Grasped w waited =
      let sent : Controller = on_events k x.attempt.events before in
      Answered k
        (matches_grasp D p (gripper_command_position_to_raw D p position) sent.next_command_id)
        before.current_status.connection_id x.attempt.rounds
        (publish_command (gripper_command D p position effort) sent) w waited

  -- `w` is the result of the wait, `waited` the state after it, and `after` the last one.
  pub data GraspEnding (r : Finished (GripperState D)) (after : Controller) : Type 0 where
    refused :
        ((s : Status) → current_status k x.now before ≡ ok s → is_ready s ≡ false)
        → r.outcome ≡ aborted
        → after ≡ release before
        → GraspEnding r after
    completed :
        (w : Waited) (waited : Controller)
        → wait_of_grasp ≡ some (w, waited)
        → Grasped w waited
        → has_fault waited.current_status ≡ false
        → r.outcome ≡ succeeded
        → r.result ≡ fill_gripper_command_state D p waited.current_status
        → after ≡ release waited
        → GraspEnding r after
    faulted :
        (w : Waited) (waited : Controller)
        → wait_of_grasp ≡ some (w, waited)
        → Grasped w waited
        → has_fault waited.current_status ≡ true
        → r.outcome ≡ aborted
        → r.result ≡ fill_gripper_command_state D p waited.current_status
        → after ≡ release waited
        → GraspEnding r after
    stopped :
        (w : Waited) (waited : Controller) (reason : String)
        → wait_of_grasp ≡ some (w, waited)
        → w.verdict ≡ err reason
        → w.final_status.connected ≡ true
        → w.final_status.connection_id ≡ before.current_status.connection_id
        → r.outcome ≡ failure_outcome x.canceling
        → r.result ≡ fill_gripper_command_state D p w.final_status
        → after
          ≡ release (
              publish_command
                (record (gripper_command D p position effort) { go_to = false })
                (on_events k x.late_events waited))
        → GraspEnding r after
    unreachable :
        (w : Waited) (waited : Controller) (reason : String)
        → wait_of_grasp ≡ some (w, waited)
        → w.verdict ≡ err reason
        → may_stop before.current_status.connection_id w.final_status ≡ false
        → r.outcome ≡ failure_outcome x.canceling
        → r.result ≡ fill_gripper_command_state D p w.final_status
        → after ≡ release (on_events k x.late_events waited)
        → GraspEnding r after

  Ending : Finished (GripperState D) × Controller → Type 0
  Ending (r, d) = GraspEnding r d

  abbrev finished :
      Result String (Unit {0}) → Waited → Controller → Finished (GripperState D) × Controller
  finished v w waited =
      finish_gripper_command D p k before.current_status.connection_id
        (gripper_command D p position effort) x v w waited

  completed-Ending :
      (w : Waited) (waited : Controller)
      → wait_of_grasp ≡ some (w, waited)
      → Grasped w waited
      → Ending (finished (ok tt) w waited)
  unfolding Ending finish_gripper_command
  completed-Ending w waited o a = by_fault (has_fault w.final_status) refl
    where
      same : has_fault w.final_status ≡ has_fault waited.current_status
      same = ap {A = Status} has_fault a.current

      state :
          fill_gripper_command_state D p w.final_status
          ≡ fill_gripper_command_state D p waited.current_status
      state = ap (fill_gripper_command_state D p) a.current

      by_fault : (b : Bool) → has_fault w.final_status ≡ b → Ending (finished (ok tt) w waited)
      by_fault true e = faulted w waited o a (sym same ∙ e) (rw (e)) state refl
      by_fault false e = completed w waited o a (sym same ∙ e) (rw (e)) state refl

  failed-Ending :
      (reason : String) (w : Waited) (waited : Controller)
      → wait_of_grasp ≡ some (w, waited)
      → w.verdict ≡ err reason
      → Ending (finished (err reason) w waited)
  unfolding Ending finish_gripper_command send_stop
  failed-Ending reason w waited o v =
      by_connection (may_stop before.current_status.connection_id w.final_status) refl
    where
      by_connection :
          (b : Bool)
          → may_stop before.current_status.connection_id w.final_status ≡ b
          → Ending (finished (err reason) w waited)
      by_connection true e =
          let (connected, same) =
            may_stop-both before.current_status.connection_id w.final_status e in
          stopped w waited reason o v connected same refl refl (rw (e) refl)
      by_connection false e = unreachable w waited reason o v e refl refl (rw (e) refl)

  waited-Ending :
      (o : Option (Waited × Controller)) (r : Finished (GripperState D)) (d : Controller)
      → wait_of_grasp ≡ o
      → after_gripper_command D p k before.current_status.connection_id
          (gripper_command D p position effort)
          x
          o
        ≡ some (r, d)
      → GraspEnding r d
  unfolding after_gripper_command Ending
  waited-Ending none r d run h = absurd (cc)
  waited-Ending (some (w, m)) r d run h =
      subst (λ (z : Finished (GripperState D) × Controller). Ending z) (same_result h)
        (by_verdict w.verdict refl)
    where
      by_verdict : (v : Result String (Unit {0})) → w.verdict ≡ v → Ending (finished v w m)
      by_verdict (ok tt) e = completed-Ending w m run (
          publish_and_wait-Answered k k.default_move_timeout before.current_status.connection_id
            (gripper_command D p position effort)
            (matches_grasp D p (gripper_command_position_to_raw D p position)) x.attempt
            before.current_status before m w run e)
      by_verdict (err reason) e = failed-Ending reason w m run e

  ready_from-Ending :
      (r : Finished (GripperState D)) (d : Controller)
      → gripper_command_from D p k position effort x (ok before.current_status) before ≡ some (r, d)
      → GraspEnding r d
  unfolding gripper_command_from
  ready_from-Ending r d h = by_ready (is_ready before.current_status) refl h
    where
      by_ready :
          (ready : Bool)
          → is_ready before.current_status ≡ ready
          → (if not ready
              then some (
                record {
                  outcome = aborted;
                  result = fill_gripper_command_state D p before.current_status;
                  feedback = [];
                },
                release before,
              )
              else after_gripper_command D p k before.current_status.connection_id
                  (gripper_command D p position effort)
                  x
                  wait_of_grasp)
            ≡ some (r, d)
          → GraspEnding r d
      by_ready false i h =
          refused
            (λ t e.
              subst (λ (z : Status). is_ready z ≡ false) (current_status-ok k x.now before t e) i)
            (cc) (cc)
      by_ready true i h = waited-Ending wait_of_grasp r d refl h

  gripper_command_from-Ending :
      (s : Result String Status) (r : Finished (GripperState D)) (d : Controller)
      → current_status k x.now before ≡ s
      → gripper_command_from D p k position effort x s before ≡ some (r, d)
      → GraspEnding r d
  unfolding gripper_command_from
  gripper_command_from-Ending (err reason) r d e h = refused (λ s q. absurd (cc)) (cc) (cc)
  gripper_command_from-Ending (ok status) r d e h =
      let same = current_status-ok k x.now before status e in
      ready_from-Ending r d (
        subst
          (λ (z : Status). gripper_command_from D p k position effort x (ok z) before ≡ some (r, d))
          (sym same) h)

-- The execution of a gripper_command goal that returns ends in one of five ways, and the flag is
-- released in each. A refused goal is aborted and publishes nothing, and no status was at hand or
-- the gripper was not ready. A goal succeeds only where its wait ended at a status of its connection
-- that answers its command, closed or opened to the position of the goal, ready, settled and without
-- a fault, at a round whose reading of the clock was within `status_timeout` of the reception of that
-- status, and its result is read from that status; one with a fault aborts it. A wait that returned an
-- error leaves the goal cancelled or aborted, with the result of the last status it has seen, and with
-- the stop of the fingers published last exactly where that status is of the connection of the goal.
pub execute_gripper_command-GraspEnding :
    (D : Double) (p : GripperParameters D) (k : Config) (position effort : D.Carrier)
    (x : Execution) (c : Controller) (r : Finished (GripperState D)) (d : Controller)
    → execute_gripper_command D p k position effort x c ≡ some (r, d)
    → GraspEnding D p k position effort x (on_events k x.events c) r d
unfolding execute_gripper_command
execute_gripper_command-GraspEnding D p k position effort x c r d h =
    let before : Controller = on_events k x.events c in
    gripper_command_from-Ending D p k position effort x before (current_status k x.now before) r d
      refl h
