-- ===== src/Sensor/Standalone.antt =====
-- robotiq_ft_sensor_hardware/nodes/robotiq_ft_sensor_standalone_node.cpp: the node that publishes the
-- wrenches of the sensor without ros2_control. `none` says that what the port answers ends before
-- the function returns.
pub mod Agreement
pub mod Rounds
use Prim.Native.String.{String}
use ur5_ros.Common.{
  ℕ, ◌==◌, not, Bool, true, false, List, [], ◌∷◌, ◌++◌, length, Option, some, none, if◌then◌else◌,
}
use ur5_ros.Common.Double.{ℤ, pos}
use ur5_ros.Sensor.Listen.{get_received_data}
use ur5_ros.Sensor.Machine.{Driver, Meets, rq_sensor_state}
use ur5_ros.Sensor.Commands.{Answer, state_got_new_message, get_command, decode_message_and_do}
use ur5_ros.Sensor.Hardware.{to_unsigned, is_run}

-- A message WrenchStamped.
pub record Wrench (F : Type 0) : Type 0 where
  pub stamp : ℕ
  pub frame_id : String
  pub force_x : F
  pub force_y : F
  pub force_z : F
  pub torque_x : F
  pub torque_y : F
  pub torque_z : F

-- `published` are the wrenches in their order.
pub record SensorNode (F : Type 0) : Type 0 where
  pub driver : Driver F
  pub max_retries : ℤ
  pub ftdi_id : String
  pub frame_id : String
  pub published : List (Wrench F)

unfoldable pub parameter_or : {A : Type 0} → A → Option A → A
parameter_or default none = default
parameter_or default (some a) = a

-- The request of the service: its text, as codes, and its number.
pub record AccessorRequest : Type 0 where
  pub command : List ℕ
  pub command_id : ℕ

-- `none` in `res` is a buffer that nothing was written to; `none` in `success`, a field left as it is.
pub record AccessorResponse : Type 0 where
  pub res : Option Answer
  pub success : Option Bool

module _ {F : Type 0} where
  unfoldable pub read_parameters :
      (max_retries : Option ℤ) → (ftdi_id frame_id : Option String) → SensorNode F → SensorNode F
  read_parameters max_retries ftdi_id frame_id w = record w {
    max_retries = parameter_or (pos 100) max_retries;
    ftdi_id = parameter_or "" ftdi_id;
    frame_id = parameter_or "robotiq_ft_frame_id" frame_id;
  }

  unfoldable pub answer_text :
      Option Answer × Driver F → SensorNode F → AccessorResponse × SensorNode F
  answer_text (a, d) w = (record { res = a; success = none }, record w { driver = d })

  unfoldable pub answer_number :
      Bool × Answer × Driver F → SensorNode F → AccessorResponse × SensorNode F
  answer_number (b, a, d) w = (record { res = some a; success = some b }, record w { driver = d })

  -- A text, where there is one, and the number otherwise.
  unfoldable pub receiver_callback :
      AccessorRequest → SensorNode F → AccessorResponse × SensorNode F
  receiver_callback req w =
      if not (length req.command == 0)
      then answer_text (decode_message_and_do req.command w.driver) w
      else answer_number (get_command req.command_id w.driver) w

  unfoldable pub set_zero : SensorNode F → SensorNode F
  set_zero w = record w {
    driver = (decode_message_and_do (83 ∷ 69 ∷ 84 ∷ 32 ∷ 90 ∷ 82 ∷ 79 ∷ []) w.driver).1;
  }

module _ {F : Type 0} (quotient : ℤ → ℕ → F) where
  unfoldable pub put_machine :
      SensorNode F → Option (Bool × Driver F) → Option (Bool × SensorNode F)
  put_machine w none = none
  put_machine w (some (r, d)) = some (r, record w { driver = d })

  -- Whether the result is 0; the name of the device is used in the search that `m` stands for.
  unfoldable pub sensor_state_machine : Meets quotient → SensorNode F → Option (Bool × SensorNode F)
  sensor_state_machine m w =
      put_machine w
        (rq_sensor_state quotient (record m { max_retries = to_unsigned w.max_retries }) w.driver)

  -- A result of -1 leads to the wait `next`.
  unfoldable pub unless_connected :
      (SensorNode F → Option (SensorNode F)) → Option (Bool × SensorNode F) → Option (SensorNode F)
  unless_connected next none = none
  unless_connected next (some (true, w)) = some w
  unless_connected next (some (false, w)) = next w

  -- The rounds, each with rclcpp::ok() and what its call of the machine meets.
  unfoldable pub wait_for_other_connection :
      List (Bool × Meets quotient) → SensorNode F → Option (SensorNode F)
  wait_for_other_connection [] w = none
  wait_for_other_connection ((false, m) ∷ rounds) w = some w
  wait_for_other_connection ((true, m) ∷ rounds) w =
      unless_connected (λ v. wait_for_other_connection rounds v) (sensor_state_machine m w)

  unfoldable pub run_machine :
      Meets quotient → List (Bool × Meets quotient) → SensorNode F → Option (SensorNode F)
  run_machine m rounds w =
      unless_connected (λ v. wait_for_other_connection rounds v) (sensor_state_machine m w)

  unfoldable pub and_run :
      Meets quotient → List (Bool × Meets quotient) → Option (SensorNode F) → Option (SensorNode F)
  and_run m rounds none = none
  and_run m rounds (some w) = run_machine m rounds w

  -- The three calls of the machine: connect, read the information, start the stream.
  unfoldable pub initialize :
      (first second third : Meets quotient × List (Bool × Meets quotient))
      → SensorNode F
      → Option (SensorNode F)
  initialize (a, as_) (b, bs) (c, cs) w = and_run c cs (and_run b bs (run_machine a as_ w))

module _ {F : Type 0} (quotient : ℤ → ℕ → F) (zero_value : F) (minus : F → F → F) where
  unfoldable pub get_data : ℕ → String → Driver F → Wrench F
  get_data now frame_id d = record {
    stamp = now;
    frame_id = frame_id;
    force_x = get_received_data minus zero_value 0 d.sensor;
    force_y = get_received_data minus zero_value 1 d.sensor;
    force_z = get_received_data minus zero_value 2 d.sensor;
    torque_x = get_received_data minus zero_value 3 d.sensor;
    torque_y = get_received_data minus zero_value 4 d.sensor;
    torque_z = get_received_data minus zero_value 5 d.sensor;
  }

  -- The data are read before the flag of the message is taken back.
  unfoldable pub publish_message : ℕ → Bool × Driver F → SensorNode F → SensorNode F
  publish_message now (false, d) w = record w { driver = d }
  publish_message now (true, d) w = record w {
    driver = d;
    published = w.published ++ get_data now w.frame_id w.driver ∷ [];
  }

  unfoldable pub publish_new : ℕ → Option (SensorNode F) → Option (SensorNode F)
  publish_new now none = none
  publish_new now (some w) = some (
      if is_run w.driver.current_state
      then publish_message now (state_got_new_message w.driver) w
      else w)

  unfoldable pub update :
      ℕ → Meets quotient → List (Bool × Meets quotient) → SensorNode F → Option (SensorNode F)
  update now m rounds w = publish_new now (run_machine quotient m rounds w)
