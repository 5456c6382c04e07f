-- ===== src/ThreeFinger/Controller/Exclusion.antt =====
-- The flag of the operations of the controller node: while one operation holds it no other begins.
use mathlib.Core.Path.{subst}
use ur5_ros.Common.{
  ℕ, ◌+◌, ◌≡◌, refl, sym, ◌∙◌, Bool, true, false, not, ltb, if◌then◌else◌, List, [], ◌∷◌, All,
  Option, some,
}
use ur5_ros.Common.Double.{Double}
use ur5_ros.ThreeFinger.Messages.{Command, Status, mode_scissor}
use ur5_ros.ThreeFinger.Controller.{
  current_status, Config, Controller, Event, status_received, stop_called, operation_requested,
  node_destroyed, on_event, on_events, receive_status, publish_command, begin_operation, failed,
  Response,
}
use ur5_ros.ThreeFinger.Controller.Wait.{Round, Waited}
use ur5_ros.ThreeFinger.Controller.Wait.Verdicts.{AtRound, first_round, later_round}
use ur5_ros.ThreeFinger.Controller.Wait.Keeping.{on_events-keep, wait_for_status-keep}
use ur5_ros.ThreeFinger.Controller.Operations.{
  Attempt, publish_and_wait, activate, deactivate, activate_from, deactivate_from, when_begun,
}
use ur5_ros.ThreeFinger.Controller.Goals.{Goal}
use ur5_ros.ThreeFinger.Controller.Move.{claim_operation, handle_move_goal}
use ur5_ros.ThreeFinger.Controller.Parameters.{
  GripperParameters, position_accepted, effort_accepted,
}
use ur5_ros.ThreeFinger.Controller.GripperCommand.{handle_gripper_command_goal}
use ur5_ros.ThreeFinger.Controller.Invariant.{stop-busy}

-- Every operation is refused, and its request changes nothing.
pub record Excluded (D : Double) (p : GripperParameters D) (k : Config) (c : Controller)
    : Type 0 where
  pub activation :
      (now : ℕ) (reset activation : Attempt)
      → activate k now reset activation c ≡ some (failed "another gripper operation is active", c)
  pub deactivation :
      (now : ℕ) (a : Attempt)
      → deactivate k now a c ≡ some (failed "another gripper operation is active", c)
  pub move : (g : Goal) → handle_move_goal g c ≡ (false, c)
  pub grasp :
      (position effort : D.Carrier) → handle_gripper_command_goal D p position effort c ≡ (false, c)

Busy : Controller → Type 0
Busy c = c.busy ≡ true

-- Setting a flag that is set.
same_state : (c : Controller) → Busy c → record c { busy = true } ≡ c
unfolding Busy
same_state c h = rw (sym h)

begin-Busy :
    (c : Controller) (body : Controller → Option (Response × Controller))
    → Busy c
    → when_begun (begin_operation c) body ≡ some (failed "another gripper operation is active", c)
unfolding begin_operation when_begun Busy
begin-Busy c body h = rw (h, same_state c h)

claim-Busy : (c : Controller) → Busy c → claim_operation c ≡ (false, c)
unfolding claim_operation Busy
claim-Busy c h = rw (h, same_state c h)

refused_or :
    (b : Bool) (c : Controller) (o : Bool × Controller)
    → o ≡ (false, c)
    → (if b then (false, c) else o) ≡ (false, c)
refused_or true c o h = refl
refused_or false c o h = h

Busy-Excluded :
    (D : Double) (p : GripperParameters D) (k : Config) (c : Controller) → Busy c → Excluded D p k c
unfolding activate deactivate handle_move_goal handle_gripper_command_goal
Busy-Excluded D p k c h = record {
  activation = λ now reset activation.
      begin-Busy c (λ b. activate_from k reset activation (current_status k now b) b) h;
  deactivation = λ now a. begin-Busy c (λ b. deactivate_from k a (current_status k now b) b) h;
  move = λ g. refused_or (ltb mode_scissor g.mode) c (claim_operation c) (claim-Busy c h);
  grasp = λ position effort.
      refused_or (not (position_accepted D p position)) c
        (if not (effort_accepted D p effort) then (false, c) else claim_operation c)
        (refused_or (not (effort_accepted D p effort)) c (claim_operation c) (claim-Busy c h));
}

AnyEvent : Event → Type 0
AnyEvent e = Unit {0}

any_events : (es : List Event) → All AnyEvent es
unfolding AnyEvent
any_events [] = tt
any_events (e ∷ es) = (tt, any_events es)

any_rounds : (rs : List Round) → All (λ (r : Round). All AnyEvent r.events) rs
any_rounds [] = tt
any_rounds (r ∷ rs) = (any_events r.events, any_rounds rs)

on_event-Busy :
    (k : Config) (e : Event) (c : Controller) → AnyEvent e → Busy c → Busy (on_event k e c)
unfolding on_event receive_status begin_operation Busy
on_event-Busy k (status_received s now) c v h = h
on_event-Busy k (stop_called now) c v h = stop-busy k now c ∙ h
on_event-Busy k operation_requested c v h = refl
on_event-Busy k node_destroyed c v h = h

on_events-Busy : (k : Config) (es : List Event) (c : Controller) → Busy c → Busy (on_events k es c)
on_events-Busy k es c h =
    on_events-keep k Busy AnyEvent (λ e d. on_event-Busy k e d) es c (any_events es) h

publish-Busy : (command : Command) (c : Controller) → Busy c → Busy (publish_command command c)
unfolding publish_command Busy
publish-Busy command c h = h

attempt-Busy :
    (k : Config) (timeout connection_id : ℕ) (command : Command) (matches : ℕ → Status → Bool)
    (a : Attempt) (final : Status) (c d : Controller) (w : Waited)
    → publish_and_wait k timeout connection_id command matches a final c ≡ some (w, d)
    → Busy c
    → Busy d
unfolding publish_and_wait
attempt-Busy k timeout connection_id command matches a final c d w e h =
    let before : Controller = on_events k a.events c in
    wait_for_status-keep k Busy AnyEvent (λ x y. on_event-Busy k x y)
      (matches before.next_command_id) (a.started_at + timeout) connection_id a.rounds final []
      (publish_command command before) d w e (any_rounds a.rounds)
      (publish-Busy command before (on_events-Busy k a.events c h))

AtRound-Busy :
    (k : Config) (rs : List Round) (r : Round) (start c : Controller)
    → AtRound k rs start r c
    → Busy start
    → Busy c
AtRound-Busy k _ r start c (first_round {r = x} e) h =
    subst Busy e (on_events-Busy k x.events start h)
AtRound-Busy k _ r start c (later_round {x = x} {rs = rs} later) h =
    AtRound-Busy k rs r (on_events k x.events start) c later (on_events-Busy k x.events start h)

-- While an operation that has taken the flag publishes a command and waits for its status, `activate`,
-- `deactivate` and the goals of `move` and `gripper_command` are refused and change nothing, whatever
-- the other threads do: before the command is published, right after it, at each round that the wait
-- comes to, and after the wait has returned. (`stop` is not among them.)
pub attempt-Excluded :
    (D : Double) (p : GripperParameters D) (k : Config) (command : Command) (a : Attempt)
    (c : Controller)
    → c.busy ≡ true
    → (es : List Event)
    → Excluded D p k (on_events k es c)
      × Excluded D p k (on_events k es (publish_command command (on_events k a.events c)))
      × ((r : Round) (d : Controller)
          → AtRound k a.rounds (publish_command command (on_events k a.events c)) r d
          → Excluded D p k (on_events k es d))
      × ((timeout connection_id : ℕ) (matches : ℕ → Status → Bool) (final : Status) (w : Waited)
            (d : Controller)
          → publish_and_wait k timeout connection_id command matches a final c ≡ some (w, d)
          → Excluded D p k (on_events k es d))
unfolding Busy
attempt-Excluded D p k command a c h es =
    let sent : Controller = publish_command command (on_events k a.events c) in
    let sent_busy : Busy sent =
      publish-Busy command (on_events k a.events c) (on_events-Busy k a.events c h) in
    (
      Busy-Excluded D p k (on_events k es c) (on_events-Busy k es c h),
      Busy-Excluded D p k (on_events k es sent) (on_events-Busy k es sent sent_busy),
      λ r d at.
          Busy-Excluded D p k (on_events k es d)
            (on_events-Busy k es d (AtRound-Busy k a.rounds r sent d at sent_busy)),
      λ timeout connection_id matches final w d e. Busy-Excluded D p k (on_events k es d) (
          on_events-Busy k es d
            (attempt-Busy k timeout connection_id command matches a final c d w e h)),
    )
