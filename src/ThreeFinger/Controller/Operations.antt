-- ===== src/ThreeFinger/Controller/Operations.antt =====
-- The services `activate` and `deactivate` of the controller node. A request reads the status, and
-- publishes each of its commands and waits for the status that answers it.
pub mod Services
pub mod Activation
use Prim.Native.String
use Prim.Native.String.{String}
use ur5_ros.Common.{ℕ, ◌+◌, ◌%◌, not, Bool, true, ◌&&◌, ◌==◌, List, [], Option, none, some}
use ur5_ros.Common.Result.{Result, ok, err}
use ur5_ros.ThreeFinger.Messages.{
  Command, Status, empty_command, initialization_reset, initialization_ready,
}
use ur5_ros.ThreeFinger.Controller.{
  Config, Controller, Event, on_events, current_status, publish_command, begin_operation, release,
  Response, failed, done,
}
use ur5_ros.ThreeFinger.Controller.Wait.{Round, Waited, wait_for_status}

unfoldable pub prefixed : String → String → String
prefixed text reason = String.◌++◌ text reason

-- What happens beside one command and its wait: the events before it is published, the clock from
-- which its deadline counts, and the rounds of the wait.
pub record Attempt : Type 0 where
  pub events : List Event
  pub started_at : ℕ
  pub rounds : List Round

-- `publish_command` and the `wait_for_status` that follows it; the predicate knows the command's id.
unfoldable pub publish_and_wait :
    Config
    → (timeout connection_id : ℕ) → Command
    → (ℕ → Status → Bool)
    → Attempt
    → Status
    → Controller
    → Option (Waited × Controller)
publish_and_wait k timeout connection_id command matches a final c =
    let before = on_events k a.events c in
    wait_for_status k (matches before.next_command_id) (a.started_at + timeout) connection_id
      a.rounds final [] (publish_command command before)

unfoldable pub is_reset : ℕ → Status → Bool
is_reset id s =
    s.last_command_id == id && not s.activated && s.initialization_status == initialization_reset

unfoldable pub is_active : Config → ℕ → Status → Bool
is_active k id s =
    s.last_command_id == id
    && s.activated
    && s.initialization_status == initialization_ready
    && s.mode == k.activation_mode % 256

unfoldable pub is_inactive : ℕ → Status → Bool
is_inactive id s = s.last_command_id == id && not s.activated

unfoldable pub activation_command : Config → Command
activation_command k = record empty_command { activate = true; mode = k.activation_mode % 256 }

-- The answer of a service to the wait that ends it, in the text of a failure and of a success.
unfoldable pub service_response : (failure success : String) → Result String (Unit {0}) → Response
service_response failure success (ok _) = done success
service_response failure success (err reason) = failed (prefixed failure reason)

unfoldable pub end_service :
    (failure success : String) → Option (Waited × Controller) → Option (Response × Controller)
end_service failure success none = none
end_service failure success (some (w, c)) =
    some (service_response failure success w.verdict, release c)

unfoldable pub after_reset :
    Config
    → (connection_id : ℕ) → Attempt
    → (verdict : Result String (Unit {0})) → Status
    → Controller
    → Option (Response × Controller)
after_reset k connection_id a (err reason) final c =
    some (failed (prefixed "reset before activation failed: " reason), release c)
after_reset k connection_id a (ok _) final c =
    end_service "activation failed: " "gripper activated and ready" (
      publish_and_wait k k.activation_timeout connection_id (activation_command k) (is_active k) a
        final c)

unfoldable pub then_activate :
    Config → ℕ → Attempt → Option (Waited × Controller) → Option (Response × Controller)
then_activate k connection_id a none = none
then_activate k connection_id a (some (w, c)) =
    after_reset k connection_id a w.verdict w.final_status c

unfoldable pub activate_from :
    Config
    → (reset activation : Attempt) → Result String Status
    → Controller
    → Option (Response × Controller)
activate_from k reset activation (err reason) c = some (failed reason, release c)
activate_from k reset activation (ok status) c = then_activate k status.connection_id activation (
    publish_and_wait k k.activation_timeout status.connection_id empty_command is_reset reset status
      c)

unfoldable pub deactivate_from :
    Config → Attempt → Result String Status → Controller → Option (Response × Controller)
deactivate_from k a (err reason) c = some (failed reason, release c)
deactivate_from k a (ok status) c = end_service "deactivation failed: " "gripper deactivated" (
    publish_and_wait k k.activation_timeout status.connection_id empty_command is_inactive a status
      c)

-- A service that finds another operation leaves the flag to it.
unfoldable pub when_begun :
    Result String (Unit {0}) × Controller
    → (Controller → Option (Response × Controller))
    → Option (Response × Controller)
when_begun (err reason, c) body = some (failed reason, c)
when_begun (ok _, c) body = body c

-- `none` where the rounds of a wait end before the wait does.
unfoldable pub activate :
    Config → (now : ℕ) → (reset activation : Attempt) → Controller → Option (Response × Controller)
activate k now reset activation c =
    when_begun (begin_operation c)
      (λ b. activate_from k reset activation (current_status k now b) b)

unfoldable pub deactivate :
    Config → (now : ℕ) → Attempt → Controller → Option (Response × Controller)
deactivate k now a c =
    when_begun (begin_operation c) (λ b. deactivate_from k a (current_status k now b) b)
