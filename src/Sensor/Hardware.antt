-- ===== src/Sensor/Hardware.antt =====
-- robotiq_ft_sensor_hardware/src/robotiq_ft_sensor_hardware.cpp and the methods of its header: the
-- component between ros2_control and the driver of the sensor. `none` says that what the port answers
-- ends before the function returns.
use Prim.Native.String.{String}
use Prim.Native.String
use ur5_ros.Common.{
  ℕ, ◌-◌, ◌%◌, ◌^◌, not, Bool, true, false, ◌||◌, ◌==◌, List, [], ◌∷◌, replicate, Option, some,
  none, if◌then◌else◌,
}
use ur5_ros.Common.Double.{ℤ, pos, negsuc}
use ur5_ros.RobotiqDriver.Driver.{differs}
use ur5_ros.Sensor.Listen.{get_received_data}
use ur5_ros.Sensor.Machine.{Driver, State, run, Meets, rq_sensor_state}
use ur5_ros.Sensor.Commands.{state_got_new_message, decode_message_and_do}
pub mod Snapshots
pub mod Exposed
pub mod Activation

-- `readings` is what the buffer between the thread and `read` holds last.
pub record FtSensor (F : Type 0) : Type 0 where
  pub driver : Driver F
  pub use_fake_mode : Bool
  pub max_retries : ℤ
  pub read_rate : ℤ
  pub ftdi_id : String
  pub sensor_states : List F
  pub readings : List F
  pub running : Bool

-- The conversion of an int to unsigned.
unfoldable pub to_unsigned : ℤ → ℕ
to_unsigned (pos n) = n % 2 ^ 32
to_unsigned (negsuc n) = 2 ^ 32 - 1 - n % 2 ^ 32

unfoldable pub is_true : String → Bool
is_true text = not (differs text "True") || not (differs text "true")

-- A name of one character stands for none.
unfoldable pub device_name : String → String
device_name text = if String.len text == 1 then "" else text

-- One sensor, with six state interfaces.
unfoldable pub sensors_valid : List ℕ → Bool
sensors_valid (interfaces ∷ []) = interfaces == 6
sensors_valid [] = false
sensors_valid (a ∷ b ∷ sensors) = false

unfoldable pub is_run : State → Bool
is_run run = true
is_run _ = false

module _ {F : Type 0} where
  unfoldable pub init_with :
      (use_fake_mode ftdi_id : String)
      → (max_retries read_rate : Option ℤ) → List ℕ
      → FtSensor F
      → Option (Bool × FtSensor F)
  init_with use_fake_mode ftdi_id (some retries) (some rate) sensors h = some (
    sensors_valid sensors,
    record h {
      use_fake_mode = is_true use_fake_mode;
      max_retries = retries;
      read_rate = rate;
      ftdi_id = device_name ftdi_id;
    },
  )
  init_with use_fake_mode ftdi_id none _ sensors h = none
  init_with use_fake_mode ftdi_id (some _) none sensors h = none

  -- Whether SUCCESS is returned; `sensors` are the numbers of state interfaces of the sensors. `none` is
  -- the exception of a number that std::stoi refuses.
  unfoldable pub on_init :
      (base_valid : Bool)
      → (use_fake_mode ftdi_id : String) → (max_retries read_rate : Option ℤ) → (sensors : List ℕ)
      → FtSensor F
      → Option (Bool × FtSensor F)
  on_init base_valid use_fake_mode ftdi_id max_retries read_rate sensors h =
      if not base_valid
      then some (false, h)
      else init_with use_fake_mode ftdi_id max_retries read_rate sensors h

module _ {F : Type 0} (quotient : ℤ → ℕ → F) (zero_value nan : F) (minus : F → F → F) where
  unfoldable pub put_result : FtSensor F → Option (Bool × Driver F) → Option (Bool × FtSensor F)
  put_result h none = none
  put_result h (some (r, d)) = some (r, record h { driver = d })

  -- Whether the result is 0; the name of the device is used in the search that `m` stands for.
  unfoldable pub sensor_state_machine : Meets quotient → FtSensor F → Option (Bool × FtSensor F)
  sensor_state_machine m h =
      put_result h
        (rq_sensor_state quotient (record m { max_retries = to_unsigned h.max_retries }) h.driver)

  -- The rounds of the wait, each with rclcpp::ok() and what its call of the machine meets.
  unfoldable pub after_wait :
      (FtSensor F → Option (FtSensor F)) → Option (Bool × FtSensor F) → Option (FtSensor F)
  after_wait next none = none
  after_wait next (some (true, h)) = some h
  after_wait next (some (false, h)) = next h

  unfoldable pub wait_for_other_connection :
      List (Bool × Meets quotient) → FtSensor F → Option (FtSensor F)
  wait_for_other_connection [] h = none
  wait_for_other_connection ((false, m) ∷ rounds) h = some h
  wait_for_other_connection ((true, m) ∷ rounds) h =
      after_wait (λ g. wait_for_other_connection rounds g) (sensor_state_machine m h)

  -- A call of the machine, and the wait where it fails.
  unfoldable pub run_machine :
      Meets quotient → List (Bool × Meets quotient) → FtSensor F → Option (FtSensor F)
  run_machine m rounds h =
      after_wait (λ g. wait_for_other_connection rounds g) (sensor_state_machine m h)

  unfoldable pub received : Driver F → ℕ → F
  received d i = get_received_data minus zero_value i d.sensor

  unfoldable pub store_readings : Bool × Driver F → FtSensor F → FtSensor F
  store_readings (false, d) h = record h { driver = d }
  store_readings (true, d) h = record h {
    driver = d;
    readings =
        received d 0
        ∷ received d 1
        ∷ received d 2
        ∷ received d 3
        ∷ received d 4
        ∷ received d 5
        ∷ [];
  }

  unfoldable pub take_message : Option (FtSensor F) → Option (FtSensor F)
  take_message none = none
  take_message (some h) = some (
      if is_run h.driver.current_state
      then store_readings (state_got_new_message h.driver) h
      else h)

  unfoldable pub read_background :
      Meets quotient → List (Bool × Meets quotient) → FtSensor F → Option (FtSensor F)
  read_background m rounds h =
      if h.use_fake_mode then some h else take_message (run_machine m rounds h)

  unfoldable pub activated : Option (FtSensor F) → Option (FtSensor F)
  activated none = none
  activated (some h) =
      some
        (record h { sensor_states = replicate 6 nan; readings = replicate 6 nan; running = true })

  unfoldable pub then_run :
      Meets quotient → List (Bool × Meets quotient) → Option (FtSensor F) → Option (FtSensor F)
  then_run m rounds none = none
  then_run m rounds (some h) = run_machine m rounds h

  -- The three calls of the machine: connect, read the information, start the stream.
  unfoldable pub on_activate :
      (first second third : Meets quotient × List (Bool × Meets quotient))
      → FtSensor F
      → Option (FtSensor F)
  on_activate (a, as_) (b, bs) (c, cs) h =
      activated
        (if h.use_fake_mode then some h else then_run c cs (then_run b bs (run_machine a as_ h)))

  unfoldable pub on_deactivate : FtSensor F → FtSensor F
  on_deactivate h = record h { running = false }

  unfoldable pub read : FtSensor F → FtSensor F
  read h = record h {
    sensor_states = if h.use_fake_mode then replicate 6 zero_value else h.readings;
  }

  -- The service sends "SET ZRO" to the driver and leaves its response as it is.
  unfoldable pub set_zero : FtSensor F → FtSensor F
  set_zero h = record h {
    driver = (decode_message_and_do (83 ∷ 69 ∷ 84 ∷ 32 ∷ 90 ∷ 82 ∷ 79 ∷ []) h.driver).1;
  }
