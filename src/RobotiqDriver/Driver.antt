-- ===== src/RobotiqDriver/Driver.antt =====
-- The interface of include/robotiq_driver/driver.hpp, with its two implementations: the driver of the
-- serial port and the fake one of src/fake/fake_driver.cpp; and the factory of
-- src/default_driver_factory.cpp, which chooses between them.
use Prim.Native.Nat.{Ordering}
use Prim.Native.String.{String}
use Prim.Native.String
use ur5_ros.Common.{ℕ, ◌%◌, Bool, true, false, Option, some, none, if◌then◌else◌}
use ur5_ros.Common.Double.{Double, clamp, to_uint8}
use ur5_ros.Common.Result.{ok, Action, Run}
use ur5_ros.RobotiqDriver.Serial.{Serial}
use ur5_ros.RobotiqDriver.Frames.{DefaultDriver, DriverError}
use ur5_ros.RobotiqDriver.DefaultDriver.{
  connect, disconnect, activate, deactivate, set_gripper_position, get_gripper_position,
  gripper_is_moving, set_slave_address, set_speed, set_force,
}

-- A method that may throw is an action. `activate` may wait for the gripper: it takes a bound on the
-- rounds of its wait, and has no result where it is still waiting then.
pub record Driver : Type 1 where
  pub State : Type 0
  pub set_slave_address : ℕ → State → State
  pub connect : Action State DriverError Bool
  pub disconnect : Action State DriverError (Unit {0})
  pub activate : ℕ → Run State DriverError (Unit {0})
  pub deactivate : Action State DriverError (Unit {0})
  pub set_gripper_position : ℕ → Action State DriverError (Unit {0})
  pub get_gripper_position : Action State DriverError ℕ
  pub gripper_is_moving : Action State DriverError Bool
  pub set_speed : ℕ → State → State
  pub set_force : ℕ → State → State

abbrev pub default_driver : Serial → Driver
default_driver serial = record {
  State = DefaultDriver serial.Port;
  set_slave_address = set_slave_address serial;
  connect = connect serial;
  disconnect = disconnect serial;
  activate = activate serial;
  deactivate = deactivate serial;
  set_gripper_position = set_gripper_position serial;
  get_gripper_position = get_gripper_position serial;
  gripper_is_moving = gripper_is_moving serial;
  set_speed = set_speed serial;
  set_force = set_force serial;
}

pub record FakeDriver : Type 0 where
  pub slave_address : ℕ
  pub connected : Bool
  pub activated : Bool
  pub position : ℕ
  pub is_moving : Bool
  pub speed : ℕ
  pub force : ℕ

abbrev pub new_fake : FakeDriver
new_fake = record {
  slave_address = 0;
  connected = false;
  activated = false;
  position = 0;
  is_moving = false;
  speed = 0;
  force = 0;
}

abbrev pub fake_driver : Driver
fake_driver = record {
  State = FakeDriver;
  set_slave_address = λ slave_address f. record f { slave_address = slave_address };
  connect = λ f. (ok true, record f { connected = true });
  disconnect = λ f. (ok tt, record f { connected = false });
  activate = λ rounds f. some (ok tt, record f { activated = true });
  deactivate = λ f. (ok tt, record f { activated = false });
  set_gripper_position = λ position f. (ok tt, record f { position = position });
  get_gripper_position = λ f. (ok f.position, f);
  gripper_is_moving = λ f. (ok f.is_moving, f);
  set_speed = λ speed f. record f { speed = speed };
  set_force = λ force f. record f { force = force };
}

-- A hardware parameter that is looked up by its name and converted: absent, not convertible, a value.
pub data Parameter {ℓ} (A : Type ℓ) : Type ℓ where
  absent : Parameter A
  malformed : Parameter A
  given : A → Parameter A

-- `none` is the exception of std::stod and std::stoul.
unfoldable pub value_or {ℓ} : {A : Type ℓ} → A → Parameter A → Option A
value_or default absent = some default
value_or default malformed = none
value_or default (given a) = some a

pub record Created : Type 1 where
  pub driver : Driver
  pub state : driver.State

-- `text != other`.
unfoldable pub differs : String → String → Bool
differs text other = elim (String.compare text other) [ Ordering.eq ↦ false | _ ↦ true ]

-- `fresh` is the object that the constructor of DefaultDriver leaves.
unfoldable pub create_driver :
    (serial : Serial) → (fresh : DefaultDriver serial.Port) → (use_dummy : Option String) → Created
create_driver serial fresh none = record { driver = default_driver serial; state = fresh }
create_driver serial fresh (some text) =
    if differs text "false"
    then record { driver = fake_driver; state = new_fake }
    else record { driver = default_driver serial; state = fresh }

-- The settings of a created driver.
unfoldable pub with_settings : (slave_address speed force : ℕ) → Created → Created
with_settings slave_address speed force c = record {
  driver = c.driver;
  state =
      c.driver.set_force force
        (c.driver.set_speed speed (c.driver.set_slave_address slave_address c.state));
}

module _ (D : Double) where
  -- A multiplier between 0 and 1 as a byte.
  unfoldable pub multiplier_byte : D.Carrier → ℕ
  multiplier_byte m = to_uint8 (D.truncate (D.mul m (D.of_int 255)))

  unfoldable pub clamped_or_one : Parameter D.Carrier → Option D.Carrier
  clamped_or_one absent = some (D.of_int 1)
  clamped_or_one malformed = none
  clamped_or_one (given m) = some (clamp D m (D.of_int 0) (D.of_int 1))

  unfoldable pub create_with :
      Option ℕ → (speed force : Option D.Carrier) → Created → Option Created
  create_with (some address) (some speed) (some force) c =
      some (with_settings (address % 256) (multiplier_byte speed) (multiplier_byte force) c)
  create_with none _ _ c = none
  create_with (some _) none _ c = none
  create_with (some _) (some _) none c = none

  -- `none` is the exception of a parameter that cannot be converted.
  unfoldable pub create :
      (serial : Serial)
      → DefaultDriver serial.Port
      → (use_dummy : Option String) → (slave_address : Parameter ℕ)
      → (speed force : Parameter D.Carrier) → Option Created
  create serial fresh use_dummy slave_address speed force =
      create_with (value_or 0x09 slave_address) (clamped_or_one speed) (clamped_or_one force)
        (create_driver serial fresh use_dummy)
