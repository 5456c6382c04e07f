-- ===== src/RobotiqDriver/HardwareInterface/Handshake.antt =====
-- The reactivation of the gripper, by the service of the activation controller, the `read` of the
-- control loop and the thread of the hardware interface, in any order. A call of the driver is one
-- step: it changes the driver alone, which only the thread uses.
pub mod Places
pub mod Read
pub mod Calls
pub mod Moves
pub mod Completion
use ur5_ros.Common.{ℕ, ◌+◌, ◌≡◌, true, false, some}
use ur5_ros.Common.Double.{Double}
use ur5_ros.Common.Result.{Result, ok, err}
use ur5_ros.RobotiqDriver.Frames.{DriverError}
use ur5_ros.RobotiqDriver.Driver.{Driver}
use ur5_ros.RobotiqDriver.HardwareInterface.{GripperInterface, read, write}
use ur5_ros.RobotiqDriver.HardwareInterface.Background.{restart, exchange_commands}
use ur5_ros.RobotiqDriver.ActivationController.{mark_waiting, send_request, is_waiting}

pub data Service : Type 0 where
  idle marked waiting : Service

-- The thread between its two stores after a restart of the gripper.
pub data Thread : Type 0 where
  looking restarted cleared : Thread

-- `restarts` counts the restarts of the gripper that succeeded, and `asked_at` is their number when
-- the service last sent its request.
pub record System (D : Double) (S : Type 0) : Type 0 where
  pub gripper : GripperInterface D S
  pub service : Service
  pub thread : Thread
  pub restarts : ℕ
  pub asked_at : ℕ

module _ (D : Double) (driver : Driver) where
  pub data Step : System D driver.State → System D driver.State → Type 0 where
    marks :
        {s : System D driver.State}
        → s.service ≡ idle
        → Step s (record s { gripper = mark_waiting D s.gripper; service = marked })
    sends :
        {s : System D driver.State}
        → s.service ≡ marked
        → Step s (record s {
          gripper = send_request D s.gripper;
          service = waiting;
          asked_at = s.restarts;
        })
    returns :
        {s : System D driver.State}
        → s.service ≡ waiting
        → is_waiting D s.gripper ≡ false
        → Step s (record s { service = idle })
    reads : {s : System D driver.State} → Step s (record s { gripper = read D s.gripper })
    writes : {s : System D driver.State} → Step s (record s { gripper = write D s.gripper })
    restarts_gripper :
        {s : System D driver.State} (rounds : ℕ) (g : GripperInterface D driver.State)
        → s.thread ≡ looking
        → s.gripper.reactivate_async_cmd ≡ true
        → restart D driver rounds s.gripper ≡ some (ok tt, g)
        → Step s (record s { gripper = g; thread = restarted; restarts = s.restarts + 1 })
    fails :
        {s : System D driver.State} (rounds : ℕ) (g : GripperInterface D driver.State)
        (e : DriverError)
        → s.thread ≡ looking
        → s.gripper.reactivate_async_cmd ≡ true
        → restart D driver rounds s.gripper ≡ some (err e, g)
        → Step s (record s { gripper = g })
    clears :
        {s : System D driver.State}
        → s.thread ≡ restarted
        → Step s (record s {
          gripper = record s.gripper { reactivate_async_cmd = false };
          thread = cleared;
        })
    answers :
        {s : System D driver.State}
        → s.thread ≡ cleared
        → Step s (record s {
          gripper = record s.gripper { reactivate_async_response = some true };
          thread = looking;
        })
    exchanges :
        {s : System D driver.State} (r : Result DriverError (Unit {0}))
        (g : GripperInterface D driver.State)
        → s.thread ≡ looking
        → exchange_commands D driver s.gripper ≡ some (r, g)
        → Step s (record s { gripper = g })

  pub data Reachable (start : System D driver.State) : System D driver.State → Type 0 where
    at_start : Reachable start start
    step_to : {s t : System D driver.State} → Reachable start s → Step s t → Reachable start t
