-- ===== src/RobotiqDriver/HardwareInterface/Handshake/Calls.antt =====
-- The calls of the driver leave the variables of the handshake as they are.
use mathlib.Core.Path.{subst}
use ur5_ros.Common.{ℕ, ◌≡◌, Option, some, none}
use ur5_ros.Common.Double.{Double}
use ur5_ros.Common.Result.{Result, ok, err, Run, run_on}
use ur5_ros.RobotiqDriver.Frames.{DriverError}
use ur5_ros.RobotiqDriver.Driver.{Driver}
use ur5_ros.RobotiqDriver.HardwareInterface.Background.{
  Gripper, put_driver, put_run, on_driver, restart, send_settings, store_state, exchange_commands,
}
use ur5_ros.RobotiqDriver.HardwareInterface.Handshake.Places.{Place, Flags}

module _ (D : Double) (driver : Driver) (t : Place) where
  put_driver-Flags :
      {A : Type 0} (g : Gripper D driver) (x : Result DriverError A × driver.State)
      → Flags D t g
      → Flags D t (put_driver D driver g x).1
  unfolding put_driver
  put_driver-Flags g (r, d) f = record {
    command = f.command;
    pending = f.pending;
    answer = f.answer;
    response = f.response;
  }

  put_run-Flags :
      {A : Type 0} (g h : Gripper D driver) (o : Option (Result DriverError A × driver.State))
      (r : Result DriverError A)
      → put_run D driver g o ≡ some (r, h)
      → Flags D t g
      → Flags D t h
  unfolding put_run
  put_run-Flags g h none r e f = absurd (cc)
  put_run-Flags g h (some x) r e f =
      let same : (put_driver D driver g x).1 ≡ h = last (put_driver D driver g x) r h e in
      subst (λ (z : Gripper D driver). Flags D t z) same (put_driver-Flags g x f)
    where
      last :
          {A : Type 0} (y : Result DriverError A × Gripper D driver) (r : Result DriverError A)
          (h : Gripper D driver)
          → ◌≡◌ {A = Option (Result DriverError A × Gripper D driver)} (some y) (some (r, h))
          → y.1 ≡ h
      last (q, z) r h e = cc

  run_on-Flags :
      {A B : Type 0} (x : Result DriverError A × Gripper D driver)
      (f : A → Run (Gripper D driver) DriverError B) (r : Result DriverError B)
      (h : Gripper D driver)
      → ((a : A) (g : Gripper D driver) → f a g ≡ some (r, h) → Flags D t g → Flags D t h)
      → run_on (some x) f ≡ some (r, h)
      → Flags D t x.1
      → Flags D t h
  run_on-Flags (ok a, g) f r h next e flags = next a g e flags
  run_on-Flags (err x, g) f r h next e flags =
      let same : g ≡ h = cc in subst (λ (z : Gripper D driver). Flags D t z) same flags

  pub restart-Flags :
      (rounds : ℕ) (g h : Gripper D driver) (r : Result DriverError (Unit {0}))
      → restart D driver rounds g ≡ some (r, h)
      → Flags D t g
      → Flags D t h
  unfolding restart on_driver
  restart-Flags rounds g h r e f =
      run_on-Flags (put_driver D driver g (driver.deactivate g.driver))
        (λ u i. put_run D driver i (driver.activate rounds i.driver)) r h
        (λ u i q. put_run-Flags i h (driver.activate rounds i.driver) r q) e
        (put_driver-Flags g (driver.deactivate g.driver) f)

  send_settings-Flags : (g : Gripper D driver) → Flags D t g → Flags D t (send_settings D driver g)
  unfolding send_settings
  send_settings-Flags g f = record {
    command = f.command;
    pending = f.pending;
    answer = f.answer;
    response = f.response;
  }

  store_state-Flags :
      (state : ℕ) (g h : Gripper D driver) (r : Result DriverError (Unit {0}))
      → store_state D driver state g ≡ some (r, h)
      → Flags D t g
      → Flags D t h
  unfolding store_state
  store_state-Flags state g h r e f =
      let same : record g { current_state = state } ≡ h = cc in
      subst (λ (z : Gripper D driver). Flags D t z) same
        (record {
          command = f.command;
          pending = f.pending;
          answer = f.answer;
          response = f.response;
        })

  pub exchange_commands-Flags :
      (g h : Gripper D driver) (r : Result DriverError (Unit {0}))
      → exchange_commands D driver g ≡ some (r, h)
      → Flags D t g
      → Flags D t h
  unfolding exchange_commands on_driver
  exchange_commands-Flags g h r e f =
      run_on-Flags (put_driver D driver g (driver.set_gripper_position g.write_command g.driver))
        (λ u i.
          run_on (on_driver D driver driver.get_gripper_position (send_settings D driver i))
            (store_state D driver))
        r h
        (λ u i q k.
          let sent : Gripper D driver = send_settings D driver i in
          run_on-Flags (put_driver D driver sent (driver.get_gripper_position sent.driver))
            (store_state D driver) r h (λ state j p. store_state-Flags state j h r p) q
            (put_driver-Flags sent (driver.get_gripper_position sent.driver)
              (send_settings-Flags i k)))
        e (put_driver-Flags g (driver.set_gripper_position g.write_command g.driver) f)
