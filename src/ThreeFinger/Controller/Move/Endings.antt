-- ===== src/ThreeFinger/Controller/Move/Endings.antt =====
-- The ways in which the execution of a move goal ends, each with what it has seen and published.
use Prim.Native.String.{String}
use mathlib.Core.Path.{subst}
use ur5_ros.Common.{
  [], refl, ◌≡◌, ◌==◌, ap, sym, ◌∙◌, ℕ, Bool, true, false, not, ==→eq, and-both, if◌then◌else◌,
  Option, none, some,
}
use ur5_ros.Common.Double.{Double}
use ur5_ros.Common.Result.{Result, ok, err}
use ur5_ros.ThreeFinger.Messages.{Status}
use ur5_ros.ThreeFinger.Controller.{
  Config, Controller, on_events, current_status, publish_command, release,
}
use ur5_ros.ThreeFinger.Controller.Wait.{Waited}
use ur5_ros.ThreeFinger.Controller.Wait.Verdicts.{Answered}
use ur5_ros.ThreeFinger.Controller.Operations.{publish_and_wait}
use ur5_ros.ThreeFinger.Controller.Operations.Services.{
  publish_and_wait-Answered, current_status-ok,
}
use ur5_ros.ThreeFinger.Controller.Goals.{
  Goal, MoveResult, empty_result, move_command, matches_goal, has_fault, is_ready,
}
use ur5_ros.ThreeFinger.Controller.Move.{
  Finished, Execution, succeeded, aborted, execute_move, move_from, after_move, finish_move,
  completed_move, send_stop, may_stop, failure_outcome, move_timeout,
}

pub may_stop-both :
    (connection_id : ℕ) (s : Status)
    → may_stop connection_id s ≡ true
    → (s.connected ≡ true) × (s.connection_id ≡ connection_id)
unfolding may_stop
may_stop-both connection_id s h =
    let (connected, same) = and-both s.connected (s.connection_id == connection_id) h in
    (connected, ==→eq s.connection_id connection_id same)

pub same_result : {A : Type 0} {a b : A} → ◌≡◌ {A = Option A} (some a) (some b) → a ≡ b
same_result h = cc

-- `before` is the state in which the status was read.
module _ (D : Double) (k : Config) (g : Goal) (x : Execution) (before : Controller) where
  -- The command of the goal is published and its status is waited for.
  abbrev pub wait_of_move : Option (Waited × Controller)
  wait_of_move =
      publish_and_wait k (move_timeout D k g) before.current_status.connection_id (move_command g)
        (matches_goal g) x.attempt before.current_status before

  -- The wait has seen a fresh status that answers the command and matches the goal.
  abbrev pub Moved : Waited → Controller → Type 0
  Moved w waited =
      let sent : Controller = on_events k x.attempt.events before in
      Answered k (matches_goal g sent.next_command_id) before.current_status.connection_id
        x.attempt.rounds (publish_command (move_command g) sent) w waited

  -- `w` is the result of the wait, `waited` the state after it and `after` the last one.
  pub data MoveEnding (r : Finished MoveResult) (after : Controller) : Type 0 where
    -- No status, or a gripper that is not ready: nothing is published.
    refused :
        ((s : Status) → current_status k x.now before ≡ ok s → is_ready s ≡ false)
        → r.outcome ≡ aborted
        → after ≡ release before
        → MoveEnding r after
    -- A status that answers the goal, without a fault.
    completed :
        (w : Waited) (waited : Controller)
        → wait_of_move ≡ some (w, waited)
        → Moved w waited
        → has_fault waited.current_status ≡ false
        → r.outcome ≡ succeeded
        → r.result.final_status ≡ waited.current_status
        → after ≡ release waited
        → MoveEnding r after
    faulted :
        (w : Waited) (waited : Controller)
        → wait_of_move ≡ some (w, waited)
        → Moved w waited
        → has_fault waited.current_status ≡ true
        → r.outcome ≡ aborted
        → after ≡ release waited
        → MoveEnding r after
    -- The wait failed, and its last status is of the connection of the goal: the stop is published
    -- last.
    stopped :
        (w : Waited) (waited : Controller) (reason : String)
        → wait_of_move ≡ some (w, waited)
        → w.verdict ≡ err reason
        → r.result.final_status ≡ w.final_status
        → w.final_status.connected ≡ true
        → w.final_status.connection_id ≡ before.current_status.connection_id
        → r.outcome ≡ failure_outcome x.canceling
        → after
          ≡ release (
              publish_command
                (record (move_command g) { go_to = false })
                (on_events k x.late_events waited))
        → MoveEnding r after
    unreachable :
        (w : Waited) (waited : Controller) (reason : String)
        → wait_of_move ≡ some (w, waited)
        → w.verdict ≡ err reason
        → r.result.final_status ≡ w.final_status
        → may_stop before.current_status.connection_id w.final_status ≡ false
        → r.outcome ≡ failure_outcome x.canceling
        → after ≡ release (on_events k x.late_events waited)
        → MoveEnding r after

module _ (to_string : ℕ → String) (D : Double) (k : Config) (g : Goal) (x : Execution)
    (before : Controller) where
  Ending : Finished MoveResult × Controller → Type 0
  Ending (r, d) = MoveEnding D k g x before r d

  abbrev finished :
      Result String (Unit {0}) → Waited → Controller → Finished MoveResult × Controller
  finished v w waited =
      finish_move to_string k before.current_status.connection_id (move_command g) x v w waited

  completed-Ending :
      (w : Waited) (waited : Controller)
      → wait_of_move D k g x before ≡ some (w, waited)
      → Moved D k g x before w waited
      → Ending (finished (ok tt) w waited)
  unfolding Ending finish_move completed_move
  completed-Ending w waited o a = by_fault (has_fault w.final_status) refl
    where
      same : has_fault w.final_status ≡ has_fault waited.current_status
      same = ap {A = Status} has_fault a.current

      by_fault : (b : Bool) → has_fault w.final_status ≡ b → Ending (finished (ok tt) w waited)
      by_fault true e = faulted w waited o a (sym same ∙ e) (rw (e)) refl
      by_fault false e = completed w waited o a (sym same ∙ e) (rw (e)) (rw (e) a.current) refl

  failed-Ending :
      (reason : String) (w : Waited) (waited : Controller)
      → wait_of_move D k g x before ≡ some (w, waited)
      → w.verdict ≡ err reason
      → Ending (finished (err reason) w waited)
  unfolding Ending finish_move send_stop
  failed-Ending reason w waited o v =
      by_connection (may_stop before.current_status.connection_id w.final_status) refl
    where
      by_connection :
          (b : Bool)
          → may_stop before.current_status.connection_id w.final_status ≡ b
          → Ending (finished (err reason) w waited)
      by_connection true e =
          let (connected, same) =
            may_stop-both before.current_status.connection_id w.final_status e in
          stopped w waited reason o v refl connected same refl (rw (e) refl)
      by_connection false e = unreachable w waited reason o v refl e refl (rw (e) refl)

  waited-Ending :
      (o : Option (Waited × Controller)) (r : Finished MoveResult) (d : Controller)
      → wait_of_move D k g x before ≡ o
      → after_move to_string k before.current_status.connection_id (move_command g) x o
        ≡ some (r, d)
      → MoveEnding D k g x before r d
  unfolding after_move Ending
  waited-Ending none r d run h = absurd (cc)
  waited-Ending (some (w, m)) r d run h =
      subst (λ (z : Finished MoveResult × Controller). Ending z) (same_result h)
        (by_verdict w.verdict refl)
    where
      by_verdict : (v : Result String (Unit {0})) → w.verdict ≡ v → Ending (finished v w m)
      by_verdict (ok tt) e = completed-Ending w m run (
          publish_and_wait-Answered k (move_timeout D k g) before.current_status.connection_id
            (move_command g) (matches_goal g) x.attempt before.current_status before m w run e)
      by_verdict (err reason) e = failed-Ending reason w m run e

  ready_from-Ending :
      (ready : Bool) (r : Finished MoveResult) (d : Controller)
      → is_ready before.current_status ≡ ready
      → (if not ready
          then some (
            record {
              outcome = aborted;
              result = record empty_result {
                message = "gripper is not activated and ready";
                final_status = before.current_status;
              };
              feedback = [];
            },
            release before,
          )
          else after_move to_string k before.current_status.connection_id
              (move_command g)
              x
              (wait_of_move D k g x before))
        ≡ some (r, d)
      → MoveEnding D k g x before r d
  ready_from-Ending false r d i h =
      refused
        (λ s e. subst (λ (z : Status). is_ready z ≡ false) (current_status-ok k x.now before s e) i)
        (cc) (cc)
  ready_from-Ending true r d i h = waited-Ending (wait_of_move D k g x before) r d refl h

  move_from-Ending :
      (s : Result String Status) (r : Finished MoveResult) (d : Controller)
      → current_status k x.now before ≡ s
      → move_from to_string D k g x s before ≡ some (r, d)
      → MoveEnding D k g x before r d
  unfolding move_from
  move_from-Ending (err reason) r d e h = refused (λ s q. absurd (cc)) (cc) (cc)
  move_from-Ending (ok status) r d e h =
      ready_from-Ending (is_ready before.current_status) r d refl (
        subst (λ (z : Status). move_from to_string D k g x (ok z) before ≡ some (r, d))
          (sym (current_status-ok k x.now before status e)) h)

-- The execution of a move that returns ends in one of five ways. A refused goal is aborted and
-- publishes nothing, and no status was at hand or the gripper was not ready. A goal succeeds only
-- where its wait ended at a status of its connection that answers its command, matches its goal and
-- has no fault, at a round whose reading of the clock was within `status_timeout` of the reception of
-- that status; one with a fault of 9 or more aborts it. A wait that returned an error leaves the goal
-- cancelled or aborted, with the last status that the wait has seen in its result, and with the stop
-- of the move published last exactly where that status is of the connection of the goal. The flag is
-- released in each.
pub execute_move-MoveEnding :
    (to_string : ℕ → String) (D : Double) (k : Config) (g : Goal) (x : Execution) (c : Controller)
    (r : Finished MoveResult) (d : Controller)
    → execute_move to_string D k g x c ≡ some (r, d)
    → MoveEnding D k g x (on_events k x.events c) r d
unfolding execute_move
execute_move-MoveEnding to_string D k g x c r d h =
    let before : Controller = on_events k x.events c in
    move_from-Ending to_string D k g x before (current_status k x.now before) r d refl h
