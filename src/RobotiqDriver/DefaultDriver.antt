-- ===== src/RobotiqDriver/DefaultDriver.antt =====
-- The class of robotiq_driver/src/default_driver.cpp. A method is an action on the object; it may
-- throw, and the log messages are left out.
pub mod Retries
pub mod Activation
use ur5_ros.Common.{ℕ, zero, suc, Bool, Option, List, [], true, ◌∷◌, some, false, none}
use ur5_ros.Common.Result.{◌>>◌, Result, Action, ok, throw, run_next, err, pure}
use ur5_ros.RobotiqDriver.Serial.{Serial, SerialError, io_exception, other_exception}
use ur5_ros.RobotiqDriver.Frames.{
  completed, in_progress, activate_failed, GripperStatus, DefaultDriver, DriverError,
  create_write_command, process_response, create_read_command, position_registers,
  ObjectDetectionStatus, max_retries, deactivate_failed, set_position_failed, uncaught,
  action_request_register, read_status_failed, first_output_register, write_response_size,
  num_output_registers, read_response_size,
}

abbrev pub if_in_progress {ℓ} : {A : Type ℓ} → GripperStatus → A → A → A
if_in_progress in_progress a b = a
if_in_progress _ a b = b

abbrev pub if_completed {ℓ} : {A : Type ℓ} → GripperStatus → A → A → A
if_completed completed a b = a
if_completed _ a b = b

module _ (serial : Serial) where
  open serial use {Port, open_port, is_open, close_port, read, write}

  abbrev pub Driver : Type 0
  Driver = DefaultDriver Port

  -- One round of the loop in `send`: the body of its `try`.
  unfoldable pub attempt : List ℕ → ℕ → Action Port SerialError (List ℕ)
  attempt request response_size = do write request; read response_size

  unfoldable pub after_attempt :
      (Port → Result DriverError (List ℕ) × Port)
      → Result SerialError (List ℕ) × Port
      → Result DriverError (List ℕ) × Port
  after_attempt retry (ok response, p) = (ok response, p)
  after_attempt retry (err io_exception, p) = retry p
  after_attempt retry (err other_exception, p) = (err (uncaught other_exception), p)

  -- The attempts that are left; with none left the result is empty.
  unfoldable pub send_loop : ℕ → List ℕ → ℕ → Port → Result DriverError (List ℕ) × Port
  unfolding after_attempt
  send_loop zero request size p = (ok [], p)
  send_loop (suc left) request size p =
      after_attempt (λ q. send_loop left request size q) (attempt request size p)

  unfoldable pub send : List ℕ → ℕ → Driver → Result DriverError (List ℕ) × Driver
  unfolding send_loop
  send request size d =
      let (r, p) = send_loop max_retries request size d.port in (r, record d { port = p })

  lift_result : {A : Type 0} → Driver → Result SerialError A × Port → Result DriverError A × Driver
  lift_result d (ok a, p) = (ok a, record d { port = p })
  lift_result d (err e, p) = (err (uncaught e), record d { port = p })

  unfoldable pub connect : Action Driver DriverError Bool
  unfolding lift_result
  connect = do λ d. lift_result d (open_port d.port); λ d. pure (is_open d.port) d

  unfoldable pub disconnect : Action Driver DriverError (Unit {0})
  unfolding lift_result
  disconnect d = lift_result d (close_port d.port)

  -- `if (response.empty()) throw`
  unfoldable pub require : DriverError → List ℕ → Action Driver DriverError (Unit {0})
  require e [] = throw e
  require e (b ∷ response) = pure tt

  -- A write command to the action request register, with the driver's own error.
  unfoldable pub write_action : DriverError → List ℕ → Action Driver DriverError (Unit {0})
  write_action e words d =
      run_next
        (send (create_write_command d.slave_address action_request_register words)
          write_response_size d)
        (require e)

  unfoldable pub store_response : List ℕ → Action Driver DriverError (Unit {0})
  unfolding process_response
  store_response [] d = (err read_status_failed, d)
  store_response (b ∷ response) d = (ok tt, process_response (b ∷ response) d)

  unfoldable pub update_status : Action Driver DriverError (Unit {0})
  update_status d =
      run_next
        (send (create_read_command d.slave_address first_output_register num_output_registers)
          read_response_size d)
        store_response

  -- `while (gripper_status_ == IN_PROGRESS)`, with a bound on its rounds; `none` means that it was
  -- still waiting when the bound was reached.
  unfoldable pub after_poll :
      (Driver → Option (Result DriverError (Unit {0}) × Driver))
      → Result DriverError (Unit {0}) × Driver
      → Option (Result DriverError (Unit {0}) × Driver)
  after_poll continue (ok u, d) = continue d
  after_poll continue (err e, d) = some (err e, d)

  unfoldable pub wait_in_progress : ℕ → Driver → Option (Result DriverError (Unit {0}) × Driver)
  unfolding after_poll
  wait_in_progress zero d = if_in_progress d.gripper_status none (some (ok tt, d))
  wait_in_progress (suc rounds) d =
      if_in_progress d.gripper_status
        (after_poll (λ e. wait_in_progress rounds e) (update_status d)) (some (ok tt, d))

  -- The test for `COMPLETED`, and then the loop.
  unfoldable pub wait_activated : ℕ → Driver → Option (Result DriverError (Unit {0}) × Driver)
  wait_activated rounds d =
      if_completed d.gripper_status (some (ok tt, d)) (wait_in_progress rounds d)

  -- The part of `activate` before its loop: set rACT to 1, and read the status.
  unfoldable pub start_activation : Action Driver DriverError (Unit {0})
  start_activation = do write_action activate_failed (0x0100 ∷ 0x0000 ∷ 0x0000 ∷ []); update_status

  unfoldable pub activate : ℕ → Driver → Option (Result DriverError (Unit {0}) × Driver)
  unfolding after_poll
  activate rounds d = after_poll (wait_activated rounds) (start_activation d)

  unfoldable pub deactivate : Action Driver DriverError (Unit {0})
  deactivate = write_action deactivate_failed (0x0000 ∷ 0x0000 ∷ 0x0000 ∷ [])

  unfoldable pub set_gripper_position : ℕ → Action Driver DriverError (Unit {0})
  set_gripper_position pos d =
      write_action set_position_failed
        (position_registers pos d.commanded_gripper_speed d.commanded_gripper_force) d

  unfoldable pub get_gripper_position : Action Driver DriverError ℕ
  get_gripper_position = do update_status; λ d. pure d.gripper_position d

  is_moving : ObjectDetectionStatus → Bool
  is_moving ObjectDetectionStatus.moving = true
  is_moving _ = false

  unfoldable pub gripper_is_moving : Action Driver DriverError Bool
  unfolding is_moving
  gripper_is_moving = do update_status; λ d. pure (is_moving d.object_detection_status) d

  unfoldable pub set_slave_address : ℕ → Driver → Driver
  set_slave_address slave_address d = record d { slave_address = slave_address }

  unfoldable pub set_speed : ℕ → Driver → Driver
  set_speed speed d = record d { commanded_gripper_speed = speed }

  unfoldable pub set_force : ℕ → Driver → Driver
  set_force force d = record d { commanded_gripper_force = force }
