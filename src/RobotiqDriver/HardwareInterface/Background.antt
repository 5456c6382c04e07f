-- ===== src/RobotiqDriver/HardwareInterface/Background.antt =====
-- The thread of the hardware interface, which alone talks to the driver while it runs, and the
-- transitions that start and stop it.
use ur5_ros.Common.{ℕ, true, false, Option, some, none, if◌then◌else◌}
use ur5_ros.Common.Double.{Double}
use ur5_ros.Common.Result.{Result, ok, err, Action, Run, run_on}
use ur5_ros.RobotiqDriver.Frames.{DriverError}
use ur5_ros.RobotiqDriver.Driver.{Driver}
use ur5_ros.RobotiqDriver.HardwareInterface.{CallbackReturn, success, failure, GripperInterface}

module _ (D : Double) (driver : Driver) where
  abbrev pub Gripper : Type 0
  Gripper = GripperInterface D driver.State

  unfoldable pub put_driver :
      {A : Type 0} → Gripper → Result DriverError A × driver.State → Result DriverError A × Gripper
  put_driver g (r, d) = (r, record g { driver = d })

  -- A method of the driver, as an action on the component.
  unfoldable pub on_driver :
      {A : Type 0} → Action driver.State DriverError A → Run Gripper DriverError A
  on_driver method g = some (put_driver g (method g.driver))

  unfoldable pub put_run :
      {A : Type 0}
      → Gripper
      → Option (Result DriverError A × driver.State)
      → Option (Result DriverError A × Gripper)
  put_run g none = none
  put_run g (some x) = some (put_driver g x)

  -- `driver_->deactivate(); driver_->activate();`
  unfoldable pub restart : (rounds : ℕ) → Run Gripper DriverError (Unit {0})
  restart rounds g =
      run_on (on_driver driver.deactivate g) (λ u h. put_run h (driver.activate rounds h.driver))

  unfoldable pub answered : Gripper → Gripper
  answered g = record g { reactivate_async_cmd = false; reactivate_async_response = some true }

  unfoldable pub reactivate : (rounds : ℕ) → Run Gripper DriverError (Unit {0})
  reactivate rounds g =
      if g.reactivate_async_cmd
      then run_on (restart rounds g) (λ u h. some (ok tt, answered h))
      else some (ok tt, g)

  -- The latest commands; the settings of the driver take effect at its next position.
  unfoldable pub send_settings : Gripper → Gripper
  send_settings g = record g {
    driver = driver.set_force g.write_force (driver.set_speed g.write_speed g.driver);
  }

  unfoldable pub store_state : ℕ → Run Gripper DriverError (Unit {0})
  store_state state g = some (ok tt, record g { current_state = state })

  unfoldable pub exchange_commands : Run Gripper DriverError (Unit {0})
  exchange_commands g =
      run_on (on_driver (driver.set_gripper_position g.write_command) g)
        (λ u h. run_on (on_driver driver.get_gripper_position (send_settings h)) store_state)

  -- The `catch` keeps what was done before the exception.
  unfoldable pub caught : Option (Result DriverError (Unit {0}) × Gripper) → Option Gripper
  caught none = none
  caught (some (r, g)) = some g

  -- A round of the loop of `background_task`; `none` where the gripper is still activating.
  unfoldable pub background_round : (rounds : ℕ) → Gripper → Option Gripper
  background_round rounds g = caught (run_on (reactivate rounds g) (λ u h. exchange_commands h))

  unfoldable pub activated :
      Option (Result DriverError (Unit {0}) × Gripper) → Option (CallbackReturn × Gripper)
  activated none = none
  activated (some (ok u, g)) = some (success, record g { running = true; joinable = true })
  activated (some (err e, g)) = some (failure, g)

  unfoldable pub default_values : Gripper → Gripper
  default_values g =
      if D.is_nan g.position
      then record g { position = D.of_int 0; velocity = D.of_int 0; position_command = D.of_int 0 }
      else g

  unfoldable pub on_activate : (rounds : ℕ) → Gripper → Option (CallbackReturn × Gripper)
  on_activate rounds g = activated (restart rounds (default_values g))

  unfoldable pub deactivated : Result DriverError (Unit {0}) × Gripper → CallbackReturn × Gripper
  deactivated (ok u, g) = (success, g)
  deactivated (err e, g) = (failure, g)

  -- `none` is the std::system_error of joining a thread that is not joinable.
  unfoldable pub on_deactivate : Gripper → Option (CallbackReturn × Gripper)
  on_deactivate g =
      let stopped : Gripper = record g { running = false; joinable = false } in
      if g.joinable
      then some (deactivated (put_driver stopped (driver.deactivate stopped.driver)))
      else none
