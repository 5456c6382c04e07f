-- ===== src/ThreeFinger/Controller.antt =====
-- robotiq_3f_controller/src/controller_node.cpp: the state of the node, the callbacks and helpers of
-- its operations, and what happens beside them. Times are those of the steady clock.
pub mod Wait
pub mod Operations
pub mod Goals
pub mod Move
pub mod Parameters
pub mod GripperCommand
pub mod Invariant
pub mod Exclusion
use Prim.Native.String.{String}
use ur5_ros.Common.{
  ℕ, ◌+◌, ◌-◌, ◌%◌, ◌^◌, not, Bool, true, false, ◌&&◌, ◌||◌, ◌==◌, ltb, leb, if◌then◌else◌, List,
  [], ◌∷◌, ◌++◌, Option, none, some,
}
use ur5_ros.Common.Double.{ℤ, pos, negsuc}
use ur5_ros.Common.Result.{Result, ok, err, Action}
use ur5_ros.ThreeFinger.Messages.{Command, Status, empty_command}

-- The integer parameters, after the checks of the constructor.
pub record Config : Type 0 where
  pub activation_mode : ℕ
  pub activation_timeout : ℕ
  pub default_move_timeout : ℕ
  pub status_timeout : ℕ

unfoldable pub positive : ℤ → Option ℕ
positive (pos n) = if ltb 0 n then some n else none
positive (negsuc n) = none

unfoldable pub in_range : (low high : ℕ) → ℤ → Option ℕ
in_range low high (pos n) = if ltb n low || ltb high n then none else some n
in_range low high (negsuc n) = none

-- `none` is the std::invalid_argument of a timeout that is not positive or a mode out of 0..3.
unfoldable pub checked_config :
    (activation_timeout move_timeout status_timeout mode : Option ℕ) → Option Config
checked_config (some a) (some m) (some s) (some mode) = some (record {
  activation_mode = mode;
  activation_timeout = a;
  default_move_timeout = m;
  status_timeout = s;
})
checked_config none _ _ _ = none
checked_config (some _) none _ _ = none
checked_config (some _) (some _) none _ = none
checked_config (some _) (some _) (some _) none = none

unfoldable pub configure :
    (activation_timeout move_timeout status_timeout activation_mode : ℤ) → Option Config
configure a m s mode = checked_config (positive a) (positive m) (positive s) (in_range 0 3 mode)

-- The fields that the operations share; `published` are the commands for the backend and
-- `statuses` the public statuses, each in its order.
pub record Controller : Type 0 where
  pub current_status : Status
  pub last_status_time : ℕ
  pub have_status : Bool
  pub last_command : Command
  pub have_command : Bool
  pub busy : Bool
  pub shutting_down : Bool
  pub next_command_id : ℕ
  pub published : List Command
  pub statuses : List Status

unfoldable pub receive_status : Status → ℕ → Controller → Controller
receive_status s now c = record c {
  current_status = s;
  last_status_time = now;
  have_status = true;
  statuses = c.statuses ++ s ∷ [];
}

-- `text.empty() ? other : text`.
unfoldable pub or_text : (other text : String) → String
or_text other String.[] = other
or_text other (String.◌∷◌ a text) = String.◌∷◌ a text

unfoldable pub is_stale : Config → ℕ → Controller → Bool
is_stale k now c = ltb k.status_timeout (now - c.last_status_time)

unfoldable pub current_status : Config → ℕ → Controller → Result String Status
current_status k now c =
    if not c.have_status
    then err "no gripper status has been received"
    else if not c.current_status.connected
    then err (or_text "gripper backend is disconnected" c.current_status.diagnostic)
    else if is_stale k now c
    then err "gripper status is stale"
    else ok c.current_status

-- The id is that of `next_command_id_`, which wraps around; `numbered` is the command with its id.
unfoldable pub numbered : Controller → Command → Command
numbered c command = record command { command_id = c.next_command_id }

-- The id is taken, the command is stored under the lock and then published without it; here nothing
-- of another thread comes between the three. Two threads that publish at once, which the code
-- allows, are not covered: their commands may then be published out of the order of their ids.
unfoldable pub publish_command : Command → Controller → Controller
publish_command command c = record c {
  last_command = numbered c command;
  have_command = true;
  next_command_id = (c.next_command_id + 1) % 2 ^ 64;
  published = c.published ++ numbered c command ∷ [];
}

unfoldable pub begin_operation : Action Controller String (Unit {0})
begin_operation c =
    (if c.busy then err "another gripper operation is active" else ok tt, record c { busy = true })

-- The destructor of BusyGuard.
unfoldable pub release : Controller → Controller
release c = record c { busy = false }

-- Trigger::Response.
pub record Response : Type 0 where
  pub success : Bool
  pub message : String

abbrev pub failed : String → Response
failed reason = record { success = false; message = reason }

abbrev pub done : String → Response
done message = record { success = true; message = message }

-- The command of `stop`, before its bits are cleared.
unfoldable pub stopped_command : Controller → Status → Command
stopped_command c status =
    if c.have_command
    then c.last_command
    else record empty_command { activate = status.activated; mode = status.mode }

unfoldable pub stop_from : Controller → Result String Status → Response × Controller
stop_from c (err reason) = (failed reason, c)
stop_from c (ok status) = (
  done "stop command sent",
  publish_command (record (stopped_command c status) { go_to = false; automatic_release = false })
      c,
)

unfoldable pub stop : Config → ℕ → Controller → Response × Controller
stop k now c = stop_from c (current_status k now c)

-- What the other threads do while an operation runs: a status arrives, the stop service is called,
-- another operation asks to begin, the node is destroyed.
pub data Event : Type 0 where
  status_received : Status → ℕ → Event
  stop_called : ℕ → Event
  operation_requested : Event
  node_destroyed : Event

unfoldable pub on_event : Config → Event → Controller → Controller
on_event k (status_received s now) c = receive_status s now c
on_event k (stop_called now) c = (stop k now c).1
on_event k operation_requested c = (begin_operation c).1
on_event k node_destroyed c = record c { shutting_down = true }

unfoldable pub on_events : Config → List Event → Controller → Controller
on_events k [] c = c
on_events k (e ∷ es) c = on_events k es (on_event k e c)
