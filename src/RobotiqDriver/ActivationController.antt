-- ===== src/RobotiqDriver/ActivationController.antt =====
-- robotiq_controllers/src/robotiq_activation_controller.cpp: the service that asks the hardware
-- interface to reactivate the gripper, through two of its command interfaces.
use ur5_ros.Common.{ℕ, Bool, not, ◌==◌, if◌then◌else◌}
use ur5_ros.Common.Double.{Double, same_double}
use ur5_ros.RobotiqDriver.HardwareInterface.{CallbackReturn, success, failure, GripperInterface}

-- `ASYNC_WAITING`.
abbrev pub async_waiting : (D : Double) → D.Carrier
async_waiting D = D.of_int 2

-- The service is created where both command interfaces are there; `created` says that no exception
-- came of it.
unfoldable pub on_activate : (command_interfaces : ℕ) → (created : Bool) → CallbackReturn
on_activate command_interfaces created =
    if not (command_interfaces == 2) then failure else if created then success else failure

module _ (D : Double) {S : Type 0} where
  -- The two stores of `reactivateGripper`, the test of its loop, and its result.
  unfoldable pub mark_waiting : GripperInterface D S → GripperInterface D S
  mark_waiting g = record g { reactivate_response = async_waiting D }

  unfoldable pub send_request : GripperInterface D S → GripperInterface D S
  send_request g = record g { reactivate_cmd = D.of_int 1 }

  unfoldable pub is_waiting : GripperInterface D S → Bool
  is_waiting g = same_double D g.reactivate_response (async_waiting D)

  unfoldable pub service_success : GripperInterface D S → Bool
  service_success g = not (same_double D g.reactivate_response (D.of_int 0))
