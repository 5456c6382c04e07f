-- ===== src/RobotiqDriver/Frames/Status.antt =====
-- How the status byte of the gripper is read.
use ur5_ros.Common.{ℕ, ◌+◌, ◌*◌, ◌/◌, ◌%◌, ◌<◌, ◌≡◌, arith, List, get_or}
use ur5_ros.Common.Bits.{bit_and-one, bit_and-bit3, bit_and-bits45, bit_and-bits67}
use ur5_ros.RobotiqDriver.Frames.{
  ActivationStatus, ActionStatus, GripperStatus, ObjectDetectionStatus, active, stopped,
  in_progress, completed, object_detected_opening, object_detected_closing, at_requested_position,
  DefaultDriver, activation_of, action_of, gripper_of, object_of, process_response,
}

-- The codes of the gripper's manual for the fields of its status byte.
abbrev pub activation_code : ActivationStatus → ℕ
activation_code ActivationStatus.reset = 0
activation_code active = 1

abbrev pub action_code : ActionStatus → ℕ
action_code stopped = 0
action_code ActionStatus.moving = 1

abbrev pub gripper_code : GripperStatus → ℕ
gripper_code GripperStatus.reset = 0
gripper_code in_progress = 1
gripper_code completed = 3

abbrev pub object_code : ObjectDetectionStatus → ℕ
object_code ObjectDetectionStatus.moving = 0
object_code object_detected_opening = 1
object_code object_detected_closing = 2
object_code at_requested_position = 3

activation_of-code :
    (byte : ℕ) (a : ActivationStatus) → byte % 2 ≡ activation_code a → activation_of byte ≡ a
unfolding activation_of
activation_of-code byte ActivationStatus.reset h = ground (arith, bit_and-one byte)
activation_of-code byte active h = ground (arith, bit_and-one byte)

action_of-code : (byte : ℕ) (m : ActionStatus) → byte / 8 % 2 ≡ action_code m → action_of byte ≡ m
unfolding action_of
action_of-code byte stopped h = ground (arith, bit_and-bit3 byte)
action_of-code byte ActionStatus.moving h = ground (arith, bit_and-bit3 byte)

gripper_of-code :
    (byte : ℕ) (g old : GripperStatus) → byte / 16 % 4 ≡ gripper_code g → gripper_of byte old ≡ g
unfolding gripper_of
gripper_of-code byte GripperStatus.reset old h = ground (arith, bit_and-bits45 byte)
gripper_of-code byte in_progress old h = ground (arith, bit_and-bits45 byte)
gripper_of-code byte completed old h = ground (arith, bit_and-bits45 byte)

gripper_of_reserved :
    (byte : ℕ) (old : GripperStatus) → byte / 16 % 4 ≡ 2 → gripper_of byte old ≡ old
unfolding gripper_of
gripper_of_reserved byte old h = ground (arith, bit_and-bits45 byte)

object_of-code :
    (byte : ℕ) (o old : ObjectDetectionStatus)
    → byte / 64 % 4 ≡ object_code o
    → object_of byte old ≡ o
unfolding object_of
object_of-code byte ObjectDetectionStatus.moving old h = ground (arith, bit_and-bits67 byte)
object_of-code byte object_detected_opening old h = ground (arith, bit_and-bits67 byte)
object_of-code byte object_detected_closing old h = ground (arith, bit_and-bits67 byte)
object_of-code byte at_requested_position old h = ground (arith, bit_and-bits67 byte)

-- The fields of a number that is put together from them.
fields :
    {byte a rest m g o : ℕ}
    → a < 2
    → rest < 4
    → m < 2
    → g < 4
    → byte ≡ a + 2 * rest + 8 * m + 16 * g + 64 * o
    → o < 4
    → (byte % 2 ≡ a) × (byte / 8 % 2 ≡ m) × (byte / 16 % 4 ≡ g) × (byte / 64 % 4 ≡ o)
fields p q r s e t = omega arith

activation_code-lt : (a : ActivationStatus) → activation_code a < 2
activation_code-lt ActivationStatus.reset = omega arith
activation_code-lt active = omega arith

action_code-lt : (m : ActionStatus) → action_code m < 2
action_code-lt stopped = omega arith
action_code-lt ActionStatus.moving = omega arith

gripper_code-lt : (g : GripperStatus) → gripper_code g < 4
gripper_code-lt GripperStatus.reset = omega arith
gripper_code-lt in_progress = omega arith
gripper_code-lt completed = omega arith

object_code-lt : (o : ObjectDetectionStatus) → object_code o < 4
object_code-lt ObjectDetectionStatus.moving = omega arith
object_code-lt object_detected_opening = omega arith
object_code-lt object_detected_closing = omega arith
object_code-lt at_requested_position = omega arith

-- A response whose status byte codes the four fields, whatever its two other bits, is read as these
-- fields and the position byte; nothing else of the driver changes.
pub process_response-codes :
    {Port : Type 0} (d : DefaultDriver Port) (response : List ℕ) (a : ActivationStatus)
    (m : ActionStatus) (g : GripperStatus) (o : ObjectDetectionStatus) (rest : ℕ)
    → rest < 4
    → get_or response 3 0
      ≡ activation_code a + 2 * rest + 8 * action_code m + 16 * gripper_code g + 64 * object_code o
    → process_response response d ≡ record d {
      activation_status = a;
      action_status = m;
      gripper_status = g;
      object_detection_status = o;
      gripper_position = get_or response 7 0;
    }
unfolding process_response
process_response-codes d response a m g o rest h e =
    let (p, q, r, s) =
      fields (activation_code-lt a) h (action_code-lt m) (gripper_code-lt g) e (object_code-lt o) in
    let byte = get_or response 3 0 in
    rw (
      activation_of-code byte a p,
      action_of-code byte m q,
      gripper_of-code byte g _ r,
      object_of-code byte o _ s,
    )

-- The reserved code 2 leaves the gripper status as it was before the response.
pub process_response_reserved :
    {Port : Type 0} (d : DefaultDriver Port) (response : List ℕ)
    → get_or response 3 0 / 16 % 4 ≡ 2
    → (process_response response d).gripper_status ≡ d.gripper_status
unfolding process_response
process_response_reserved d response h =
    gripper_of_reserved (get_or response 3 0) d.gripper_status h
