-- ===== src/ThreeFinger/Controller/Wait.antt =====
-- `wait_for_status` of the controller node: the rounds of its loop.
pub mod Verdicts
pub mod Keeping
pub mod Deadline
use Prim.Native.String.{String}
use ur5_ros.Common.{
  ℕ, not, Bool, ◌==◌, leb, if◌then◌else◌, List, [], ◌∷◌, ◌++◌, Option, none, some, ◌&&◌,
}
use ur5_ros.Common.Result.{Result, ok, err}
use ur5_ros.ThreeFinger.Messages.{Status}
use ur5_ros.ThreeFinger.Controller.{Config, Controller, Event, on_events, is_stale, or_text}

-- A round of the loop of `wait_for_status`: what happened before it took the lock again, the answers
-- of `is_canceling` and `is_active`, and the clock at its two readings.
pub record Round : Type 0 where
  pub events : List Event
  pub cancelled : Bool
  pub active : Bool
  pub checked_at : ℕ
  pub ended_at : ℕ

-- `final_status` is the variable of the caller; `feedback` are the statuses that `progress` published.
pub record Waited : Type 0 where
  pub verdict : Result String (Unit {0})
  pub final_status : Status
  pub feedback : List Status

-- The verdict of a round on the status at hand; `none` goes on to the deadline.
unfoldable pub status_verdict :
    Config
    → (Status → Bool)
    → (connection_id : ℕ) → Round
    → Controller
    → Option (Result String (Unit {0}))
status_verdict k predicate connection_id r c =
    if not c.current_status.connected
    then some (err (or_text "gripper disconnected" c.current_status.diagnostic))
    else if not (c.current_status.connection_id == connection_id)
    then some (err "gripper reconnected. Request not replayed")
    else if is_stale k r.checked_at c
    then some (err "gripper status is stale")
    else if predicate c.current_status
    then some (ok tt)
    else none

unfoldable pub deadline_verdict : (deadline : ℕ) → Round → Option (Result String (Unit {0}))
deadline_verdict deadline r =
    if leb deadline r.ended_at then some (err "request timed out") else none

-- What a round decides: a verdict ends the loop, and without one it sleeps and goes round again.
unfoldable pub settle :
    Option (Result String (Unit {0}))
    → Status
    → List Status
    → Controller
    → Option (Waited × Controller)
    → Option (Waited × Controller)
settle (some v) final feedback c rest =
    some (record { verdict = v; final_status = final; feedback = feedback }, c)
settle none final feedback c rest = rest

-- A status is looked at where the loop goes on, is not cancelled and has one.
unfoldable pub looks : Round → Controller → Bool
looks r c = not c.shutting_down && not r.cancelled && c.have_status

unfoldable pub seen_status : Round → Controller → Status → Status
seen_status r c before = if looks r c then c.current_status else before

unfoldable pub seen_feedback : Round → Controller → List Status → List Status
seen_feedback r c feedback =
    if looks r c && r.active then feedback ++ c.current_status ∷ [] else feedback

unfoldable pub or_deadline :
    Option (Result String (Unit {0})) → (deadline : ℕ) → Round → Option (Result String (Unit {0}))
or_deadline (some v) deadline r = some v
or_deadline none deadline r = deadline_verdict deadline r

module _ (k : Config) (predicate : Status → Bool) (deadline connection_id : ℕ) where
  unfoldable pub round_verdict : Round → Controller → Option (Result String (Unit {0}))
  round_verdict r c =
      if c.shutting_down
      then some (err "controller is shutting down")
      else if r.cancelled
      then some (err "request cancelled")
      else or_deadline
          (if c.have_status then status_verdict k predicate connection_id r c else none) deadline r

  -- `none` where the rounds end before the loop does; the events of a round come before its check.
  unfoldable pub wait_for_status :
      List Round → Status → List Status → Controller → Option (Waited × Controller)
  wait_for_status [] final feedback c = none
  wait_for_status (r ∷ rs) final feedback c =
      let here = on_events k r.events c in
      settle (round_verdict r here) (seen_status r here final) (seen_feedback r here feedback) here
        (wait_for_status rs (seen_status r here final) (seen_feedback r here feedback) here)
