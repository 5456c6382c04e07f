-- ===== src/ThreeFinger/Controller/Invariant/Services.antt =====
-- The services of the controller node keep its invariant and leave the flag of the operations free.
use Prim.Native.String.{String}
use ur5_ros.Common.{ℕ, ◌≡◌, refl, ◌≤◌, true, false, Option, none, some, arith}
use ur5_ros.Common.Result.{Result, ok, err}
use ur5_ros.ThreeFinger.Messages.{Status, empty_command}
use ur5_ros.ThreeFinger.Controller.{
  Config, Controller, current_status, begin_operation, release, Response,
}
use ur5_ros.ThreeFinger.Controller.Wait.{Waited}
use ur5_ros.ThreeFinger.Controller.Operations.{
  Attempt, activate, deactivate, activate_from, deactivate_from, when_begun, publish_and_wait,
  end_service, then_activate, after_reset, activation_command, is_reset, is_active, is_inactive,
}
use ur5_ros.ThreeFinger.Controller.Invariant.{
  Invariant, Safe, ValidAttempt, Leaves, set_flags, publish_and_wait-Invariant,
}

-- Between the operations: the invariant, and a flag that is free.
pub record AtRest (c : Controller) : Type 0 where
  pub invariant : Invariant c
  pub free : c.busy ≡ false

pub released : (c : Controller) → Invariant c → AtRest (release c)
unfolding release
released c i = record { invariant = set_flags c false c.shutting_down i; free = refl }

end_service-AtRest :
    (failure success : String) (o : Option (Waited × Controller))
    → Leaves Invariant o
    → Leaves AtRest (end_service failure success o)
unfolding end_service Leaves
end_service-AtRest failure success none i = tt
end_service-AtRest failure success (some (w, c)) i = released c i

empty-Safe : Safe empty_command
empty-Safe = record { mode = omega arith; release = refl }

-- `activation_mode` passed the check of the constructor.
activation-Safe : (k : Config) → k.activation_mode ≤ 3 → Safe (activation_command k)
unfolding activation_command
activation-Safe k m = record { mode = omega arith; release = refl }

after_reset-AtRest :
    (k : Config) (connection_id : ℕ) (a : Attempt) (v : Result String (Unit {0})) (final : Status)
    (c : Controller)
    → k.activation_mode ≤ 3
    → ValidAttempt a
    → Invariant c
    → Leaves AtRest (after_reset k connection_id a v final c)
unfolding after_reset Leaves
after_reset-AtRest k connection_id a (err reason) final c m v i = released c i
after_reset-AtRest k connection_id a (ok tt) final c m v i =
    end_service-AtRest "activation failed: " "gripper activated and ready"
      (publish_and_wait k k.activation_timeout connection_id (activation_command k) (is_active k) a
        final c)
      (publish_and_wait-Invariant k k.activation_timeout connection_id (activation_command k)
        (is_active k) a final c v (activation-Safe k m) i)

then_activate-AtRest :
    (k : Config) (connection_id : ℕ) (a : Attempt) (o : Option (Waited × Controller))
    → k.activation_mode ≤ 3
    → ValidAttempt a
    → Leaves Invariant o
    → Leaves AtRest (then_activate k connection_id a o)
unfolding then_activate Leaves
then_activate-AtRest k connection_id a none m v i = tt
then_activate-AtRest k connection_id a (some (w, c)) m v i =
    after_reset-AtRest k connection_id a w.verdict w.final_status c m v i

activate_from-AtRest :
    (k : Config) (reset activation : Attempt) (s : Result String Status) (c : Controller)
    → k.activation_mode ≤ 3
    → ValidAttempt reset
    → ValidAttempt activation
    → Invariant c
    → Leaves AtRest (activate_from k reset activation s c)
unfolding activate_from Leaves
activate_from-AtRest k reset activation (err reason) c m v w i = released c i
activate_from-AtRest k reset activation (ok s) c m v w i =
    then_activate-AtRest k s.connection_id activation
      (publish_and_wait k k.activation_timeout s.connection_id empty_command is_reset reset s c) m w
      (publish_and_wait-Invariant k k.activation_timeout s.connection_id empty_command is_reset
        reset s c v empty-Safe i)

deactivate_from-AtRest :
    (k : Config) (a : Attempt) (s : Result String Status) (c : Controller)
    → ValidAttempt a
    → Invariant c
    → Leaves AtRest (deactivate_from k a s c)
unfolding deactivate_from Leaves
deactivate_from-AtRest k a (err reason) c v i = released c i
deactivate_from-AtRest k a (ok s) c v i =
    end_service-AtRest "deactivation failed: " "gripper deactivated"
      (publish_and_wait k k.activation_timeout s.connection_id empty_command is_inactive a s c)
      (publish_and_wait-Invariant k k.activation_timeout s.connection_id empty_command is_inactive a
        s c v empty-Safe i)

-- A service at rest finds the flag free.
when_begun-AtRest :
    (c : Controller) (body : Controller → Option (Response × Controller))
    → AtRest c
    → ((d : Controller) → Invariant d → Leaves AtRest (body d))
    → Leaves AtRest (when_begun (begin_operation c) body)
unfolding when_begun begin_operation
when_begun-AtRest c body r f =
    rw (r.free) (f (record c { busy = true }) (set_flags c true c.shutting_down r.invariant))

pub activate-AtRest :
    (k : Config) (now : ℕ) (reset activation : Attempt) (c : Controller)
    → k.activation_mode ≤ 3
    → ValidAttempt reset
    → ValidAttempt activation
    → AtRest c
    → Leaves AtRest (activate k now reset activation c)
unfolding activate
activate-AtRest k now reset activation c m v w r =
    when_begun-AtRest c (λ b. activate_from k reset activation (current_status k now b) b) r
      (λ d i. activate_from-AtRest k reset activation (current_status k now d) d m v w i)

pub deactivate-AtRest :
    (k : Config) (now : ℕ) (a : Attempt) (c : Controller)
    → ValidAttempt a
    → AtRest c
    → Leaves AtRest (deactivate k now a c)
unfolding deactivate
deactivate-AtRest k now a c v r =
    when_begun-AtRest c (λ b. deactivate_from k a (current_status k now b) b) r
      (λ d i. deactivate_from-AtRest k a (current_status k now d) d v i)
