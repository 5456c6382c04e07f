-- ===== src/RobotiqDriver/HardwareInterface.antt =====
-- robotiq_driver/src/hardware_interface.cpp: the component between ros2_control and a driver. The
-- `double` and the driver are parameters; the log messages are left out.
pub mod Background
pub mod Handshake
pub mod Bytes
use Prim.Native.String.{String}
use ur5_ros.Common.{
  ℕ, ◌-◌, not, Bool, true, false, ◌&&◌, ◌||◌, ◌==◌, List, [], ◌∷◌, length, Option, some, none,
  if◌then◌else◌,
}
use ur5_ros.Common.Double.{Double, min_double, max_double, clamp, to_uint8}
use ur5_ros.Common.Result.{Result, ok, err}
use ur5_ros.RobotiqDriver.Frames.{DriverError}
use ur5_ros.RobotiqDriver.Driver.{Driver, Parameter, absent, malformed, given, differs}

abbrev pub gripper_min_pos : ℕ
gripper_min_pos = 3

abbrev pub gripper_max_pos : ℕ
gripper_max_pos = 230

abbrev pub gripper_range : ℕ
gripper_range = gripper_max_pos - gripper_min_pos

pub data CallbackReturn : Type 0 where
  success failure : CallbackReturn

-- The names of the interfaces of the joint.
pub record Joint : Type 0 where
  pub command_interfaces : List String
  pub state_interfaces : List String

-- `running` is communication_thread_is_running_ and `joinable` that of the thread. The driver is
-- there after `on_init`.
pub record GripperInterface (D : Double) (S : Type 0) : Type 0 where
  pub driver : S
  pub running : Bool
  pub joinable : Bool
  pub closed_pos : D.Carrier
  pub max_speed : D.Carrier
  pub max_force : D.Carrier
  pub position : D.Carrier
  pub velocity : D.Carrier
  pub position_command : D.Carrier
  pub write_command : ℕ
  pub write_force : ℕ
  pub write_speed : ℕ
  pub current_state : ℕ
  pub reactivate_cmd : D.Carrier
  pub reactivate_async_cmd : Bool
  pub reactivate_response : D.Carrier
  pub force : D.Carrier
  pub speed : D.Carrier
  pub reactivate_async_response : Option Bool

-- The checks of `on_init` on the joint.
unfoldable pub is_state_interface : String → Bool
is_state_interface name = not (differs name "position") || not (differs name "velocity")

unfoldable pub states_valid : List String → Bool
states_valid (a ∷ b ∷ []) = is_state_interface a && is_state_interface b
states_valid [] = false
states_valid (a ∷ []) = false
states_valid (a ∷ b ∷ c ∷ names) = false

unfoldable pub commands_valid : List String → Bool
commands_valid (a ∷ []) = not (differs a "position")
commands_valid [] = false
commands_valid (a ∷ b ∷ names) = false

unfoldable pub joint_valid : Joint → Bool
joint_valid j = commands_valid j.command_interfaces && states_valid j.state_interfaces

-- `kGripperMaxSpeed` and `kGripperMaxforce`, the first of which is no integer.
pub record Limits (D : Double) : Type 0 where
  pub speed : D.Carrier
  pub force : D.Carrier

module _ (D : Double) where
  unfoldable pub read_position : ℕ → D.Carrier → D.Carrier
  read_position state closed =
      D.div (D.mul closed (D.sub (D.of_int state) (D.of_int gripper_min_pos)))
        (D.of_int gripper_range)

  unfoldable pub take_request : {S : Type 0} → GripperInterface D S → GripperInterface D S
  take_request g =
      if D.is_nan g.reactivate_cmd
      then g
      else record g { reactivate_async_cmd = true; reactivate_cmd = D.nan }

  unfoldable pub bool_double : Bool → D.Carrier
  bool_double true = D.of_int 1
  bool_double false = D.of_int 0

  unfoldable pub give_response :
      {S : Type 0} → Option Bool → GripperInterface D S → GripperInterface D S
  give_response none g = g
  give_response (some answer) g = record g {
    reactivate_response = bool_double answer;
    reactivate_async_response = none;
  }

  unfoldable pub read : {S : Type 0} → GripperInterface D S → GripperInterface D S
  read {S = S} g =
      let moved : GripperInterface D S = record g {
        position = read_position g.current_state g.closed_pos;
      } in
      give_response g.reactivate_async_response (take_request moved)

  unfoldable pub position_target : {S : Type 0} → GripperInterface D S → D.Carrier
  position_target g =
      D.add (D.mul (D.div g.position_command g.closed_pos) (D.of_int gripper_range))
        (D.of_int gripper_min_pos)

  unfoldable pub bounded_target : D.Carrier → D.Carrier
  bounded_target x = max_double D (min_double D x (D.of_int 255)) (D.of_int 0)

  -- The share of a limit that a speed or a force is, at most the whole.
  unfoldable pub share : (value limit : D.Carrier) → D.Carrier
  share value limit = clamp D (D.div (D.abs value) limit) (D.of_int 0) (D.of_int 1)

  unfoldable pub share_byte : (value limit : D.Carrier) → ℕ
  share_byte value limit = to_uint8 (D.truncate (D.mul (share value limit) (D.of_int 255)))

  unfoldable pub write : {S : Type 0} → GripperInterface D S → GripperInterface D S
  write g = record g {
    write_command = to_uint8 (D.truncate (bounded_target (position_target g)));
    write_speed = share_byte g.speed g.max_speed;
    write_force = share_byte g.force g.max_force;
  }

  unfoldable pub read_limit : D.Carrier → Parameter D.Carrier → Option D.Carrier
  read_limit default absent = some default
  read_limit default malformed = none
  read_limit default (given x) = some x

module _ (D : Double) (limits : Limits D) where
  unfoldable pub with_parameters :
      {S : Type 0}
      → (closed speed force : Option D.Carrier) → GripperInterface D S
      → Option (GripperInterface D S)
  with_parameters (some closed) (some speed) (some force) g = some (record g {
    closed_pos = closed;
    max_speed = speed;
    max_force = force;
    position = D.nan;
    velocity = D.nan;
    position_command = D.nan;
    reactivate_cmd = D.nan;
    reactivate_async_cmd = false;
  })
  with_parameters none _ _ g = none
  with_parameters (some _) none _ g = none
  with_parameters (some _) (some _) none g = none

  -- The rest of `on_init`; `created` is what the factory returned, if it did not throw.
  unfoldable pub checked_init :
      {S : Type 0}
      → Joint
      → Option S
      → Option (GripperInterface D S)
      → Option (CallbackReturn × GripperInterface D S)
  checked_init j created none = none
  checked_init j none (some g) = some (failure, g)
  checked_init j (some d) (some g) =
      if joint_valid j then some (success, record g { driver = d }) else some (failure, g)

  -- `none` is the exception of a position, a speed or a force that is no number.
  unfoldable pub on_init :
      {S : Type 0}
      → (base_valid : Bool) → (closed : Option D.Carrier)
      → (max_speed max_force : Parameter D.Carrier) → Joint
      → (created : Option S) → GripperInterface D S
      → Option (CallbackReturn × GripperInterface D S)
  on_init base_valid closed max_speed max_force j created g =
      if not base_valid
      then some (failure, g)
      else checked_init j created (
          with_parameters closed (read_limit D limits.speed max_speed)
            (read_limit D limits.force max_force) g)

  -- The initial values of the commands that are exported, from their multipliers.
  unfoldable pub export_command_interfaces :
      {S : Type 0}
      → (speed_multiplier force_multiplier : D.Carrier) → GripperInterface D S
      → GripperInterface D S
  export_command_interfaces speed_multiplier force_multiplier g = record g {
    speed = D.mul limits.speed speed_multiplier;
    force = D.mul limits.force force_multiplier;
  }

module _ (D : Double) (driver : Driver) where
  abbrev Owner : Type 0
  Owner = GripperInterface D driver.State

  unfoldable pub configured :
      Owner → Result DriverError Bool × driver.State → CallbackReturn × Owner
  configured g (ok true, d) = (success, record g { driver = d })
  configured g (ok false, d) = (failure, record g { driver = d })
  configured g (err e, d) = (failure, record g { driver = d })

  unfoldable pub on_configure : (base_valid : Bool) → Owner → CallbackReturn × Owner
  on_configure base_valid g =
      if not base_valid then (failure, g) else configured g (driver.connect g.driver)
