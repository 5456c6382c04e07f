-- ===== src/ThreeFinger/Controller/Invariant/Reachable.antt =====
-- The runs of the controller node, in which statuses, stops and operations follow one another in any
-- order, and the commands that the driver node receives from them.
use Prim.Native.String.{String}
use mathlib.Core.Path.{subst}
use ur5_ros.Common.{
  refl, ◌≤◌, ◌∙◌, ◌≡◌, ◌≤◌, [], ℕ, Bool, true, false, not, ltb, if◌then◌else◌, Option, some, arith,
}
use ur5_ros.Common.Double.{Double}
use ur5_ros.ThreeFinger.Messages.{Status, empty_command, empty_status, mode_scissor}
use ur5_ros.ThreeFinger.Controller.{Config, Controller, receive_status, stop, Response}
use ur5_ros.ThreeFinger.Controller.Operations.{Attempt, activate, deactivate}
use ur5_ros.ThreeFinger.Controller.Goals.{Goal, MoveResult}
use ur5_ros.ThreeFinger.Controller.Move.{
  Finished, Execution, claim_operation, handle_move_goal, execute_move,
}
use ur5_ros.ThreeFinger.Controller.Parameters.{
  position_accepted, effort_accepted, GripperParameters,
}
use ur5_ros.ThreeFinger.Controller.GripperCommand.{
  GripperState, handle_gripper_command_goal, execute_gripper_command,
}
use ur5_ros.ThreeFinger.Controller.Invariant.{
  Invariant, Leaves, ValidAttempt, set_flags, receive_status-Invariant, none_yet, stop-Invariant,
  stop-busy,
}
use ur5_ros.ThreeFinger.Controller.Invariant.Services.{AtRest, activate-AtRest, deactivate-AtRest}
use ur5_ros.ThreeFinger.Controller.Invariant.Actions.{
  ValidExecution, execute_move-AtRest, execute_gripper_command-AtRest,
}

abbrev pub new_controller : Controller
new_controller = record {
  current_status = empty_status;
  last_status_time = 0;
  have_status = false;
  last_command = empty_command;
  have_command = false;
  busy = false;
  shutting_down = false;
  next_command_id = 1;
  published = [];
  statuses = [];
}

module _ (to_string : ℕ → String) (D : Double) (p : GripperParameters D) (k : Config) where
  -- An operation is one step, with what the other threads do beside it in its attempts.
  pub data Step : Controller → Controller → Type 0 where
    status_received :
        {c : Controller} (s : Status) (now : ℕ) → s.mode ≤ 3 → Step c (receive_status s now c)
    stopped : {c : Controller} (now : ℕ) → Step c (stop k now c).1
    activated :
        {c d : Controller} (now : ℕ) (reset activation : Attempt) (r : Response)
        → ValidAttempt reset
        → ValidAttempt activation
        → activate k now reset activation c ≡ some (r, d)
        → Step c d
    deactivated :
        {c d : Controller} (now : ℕ) (a : Attempt) (r : Response)
        → ValidAttempt a
        → deactivate k now a c ≡ some (r, d)
        → Step c d
    move_rejected :
        {c : Controller} (g : Goal)
        → (handle_move_goal g c).0 ≡ false
        → Step c (handle_move_goal g c).1
    moved :
        {c d : Controller} (g : Goal) (x : Execution) (r : Finished MoveResult)
        → ValidExecution x
        → (handle_move_goal g c).0 ≡ true
        → execute_move to_string D k g x (handle_move_goal g c).1 ≡ some (r, d)
        → Step c d
    grasp_rejected :
        {c : Controller} (position effort : D.Carrier)
        → (handle_gripper_command_goal D p position effort c).0 ≡ false
        → Step c (handle_gripper_command_goal D p position effort c).1
    grasped :
        {c d : Controller} (position effort : D.Carrier) (x : Execution)
        (r : Finished (GripperState D))
        → ValidExecution x
        → (handle_gripper_command_goal D p position effort c).0 ≡ true
        → execute_gripper_command D p k position effort x
            (handle_gripper_command_goal D p position effort c).1
          ≡ some (r, d)
        → Step c d

  pub data Reachable : Controller → Type 0 where
    at_start : Reachable new_controller
    step_to : {c d : Controller} → Reachable c → Step c d → Reachable d

leaves :
    {A : Type 0} (o : Option (A × Controller)) (a : A) (d : Controller)
    → Leaves AtRest o
    → o ≡ some (a, d)
    → AtRest d
unfolding Leaves
leaves o a d h e = subst (Leaves AtRest) e h

-- What the check of a goal does: the flag is taken by an accepted goal only.
record Claimed (c : Controller) (answer : Bool × Controller) : Type 0 where
  invariant : Invariant answer.1
  rejected : answer.0 ≡ false → answer.1.busy ≡ false

claim-Claimed : (c : Controller) → AtRest c → Claimed c (claim_operation c)
unfolding claim_operation
claim-Claimed c r = record {
  invariant = set_flags c true c.shutting_down r.invariant;
  rejected = λ e. absurd (clash c.busy r.free e);
}
  where
    clash : (b : Bool) → b ≡ false → not b ≡ false → ⊥
    clash false e f = cc
    clash true e f = cc

refused-Claimed :
    (c : Controller) (b : Bool) (o : Bool × Controller)
    → AtRest c
    → Claimed c o
    → Claimed c (if b then (false, c) else o)
refused-Claimed c true o r h = record { invariant = r.invariant; rejected = λ e. r.free }
refused-Claimed c false o r h = h

move_goal-Claimed : (g : Goal) (c : Controller) → AtRest c → Claimed c (handle_move_goal g c)
unfolding handle_move_goal
move_goal-Claimed g c r =
    refused-Claimed c (ltb mode_scissor g.mode) (claim_operation c) r (claim-Claimed c r)

goal_mode : (g : Goal) (c : Controller) → (handle_move_goal g c).0 ≡ true → g.mode ≤ 3
unfolding handle_move_goal
goal_mode g c h = by_mode (ltb mode_scissor g.mode) refl h
  where
    by_mode :
        (b : Bool)
        → ltb mode_scissor g.mode ≡ b
        → (if b then (false, c) else claim_operation c).0 ≡ true
        → g.mode ≤ 3
    by_mode true e h = absurd (cc)
    by_mode false e h = ground arith

module _ (to_string : ℕ → String) (D : Double) (p : GripperParameters D) (k : Config) where
  grasp_goal-Claimed :
      (position effort : D.Carrier) (c : Controller)
      → AtRest c
      → Claimed c (handle_gripper_command_goal D p position effort c)
  unfolding handle_gripper_command_goal
  grasp_goal-Claimed position effort c r =
      refused-Claimed c (not (position_accepted D p position))
        (if not (effort_accepted D p effort) then (false, c) else claim_operation c) r
        (refused-Claimed c (not (effort_accepted D p effort)) (claim_operation c) r
          (claim-Claimed c r))

  Step-AtRest :
      (c d : Controller) → k.activation_mode ≤ 3 → Step to_string D p k c d → AtRest c → AtRest d
  unfolding receive_status
  Step-AtRest c d m (status_received s now v) r = record {
    invariant = receive_status-Invariant s now c v r.invariant;
    free = r.free;
  }
  Step-AtRest c d m (stopped now) r = record {
    invariant = stop-Invariant k now c r.invariant;
    free = stop-busy k now c ∙ r.free;
  }
  Step-AtRest c d m (activated now reset activation a v w e) r =
      leaves (activate k now reset activation c) a d
        (activate-AtRest k now reset activation c m v w r) e
  Step-AtRest c d m (deactivated now x a v e) r =
      leaves (deactivate k now x c) a d (deactivate-AtRest k now x c v r) e
  Step-AtRest c d m (move_rejected g e) r =
      let claimed = move_goal-Claimed g c r in
      record { invariant = claimed.invariant; free = claimed.rejected e }
  Step-AtRest c d m (moved g x a v h e) r =
      leaves (execute_move to_string D k g x (handle_move_goal g c).1) a d
        (execute_move-AtRest to_string D k g x (handle_move_goal g c).1 (goal_mode g c h) v
          (move_goal-Claimed g c r).invariant)
        e
  Step-AtRest c d m (grasp_rejected position effort e) r =
      let claimed = grasp_goal-Claimed position effort c r in
      record { invariant = claimed.invariant; free = claimed.rejected e }
  Step-AtRest c d m (grasped position effort x a v h e) r =
      leaves
        (execute_gripper_command D p k position effort x
          (handle_gripper_command_goal D p position effort c).1)
        a d
        (execute_gripper_command-AtRest D p k position effort x
          (handle_gripper_command_goal D p position effort c).1 v
          (grasp_goal-Claimed position effort c r).invariant)
        e

  -- Between the operations of a run whose statuses have the modes of the gripper, under a checked
  -- activation mode, the flag of the operations is free, every published command has a valid mode and
  -- no automatic release, and, `publish_command` being one step here, the commands are numbered from 1
  -- on in their order.
  pub Reachable-AtRest :
      (c : Controller) → k.activation_mode ≤ 3 → Reachable to_string D p k c → AtRest c
  Reachable-AtRest c m at_start = record {
    invariant = record {
      numbered = none_yet;
      safe = tt;
      last = record { mode = omega arith; release = refl };
      status = omega arith;
    };
    free = refl;
  }
  Reachable-AtRest c m (step_to {c = b} r s) = Step-AtRest b c m s (Reachable-AtRest b m r)
