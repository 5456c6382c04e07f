-- ===== src/Witnesses/Driver.antt =====
-- The gripper driver over a port that answers from a script.
use ur5_ros.Common.{ℕ, ◌≡◌, refl, true, some, List, [], ◌∷◌, length, arith, if◌then◌else◌, ◌==◌}
use ur5_ros.Common.Result.{Result, ok, err}
use ur5_ros.Crc.Bitwise.{rq_com_compute_crc}
use ur5_ros.RobotiqDriver.Serial.{Serial, SerialError, io_exception}
use ur5_ros.RobotiqDriver.Frames.{
  ActionStatus, GripperStatus, active, stopped, in_progress, completed, at_requested_position,
  DefaultDriver, create_write_command, process_response,
}
use ur5_ros.RobotiqDriver.Frames.Check.{
  parse_write, create_write_command-checks, parse_write-create_write_command,
}
use ur5_ros.RobotiqDriver.Frames.Status.{process_response-codes}
use ur5_ros.RobotiqDriver.DefaultDriver.{
  attempt, send, update_status, wait_in_progress, activate, start_activation, write_action, require,
  wait_activated,
}
use ur5_ros.RobotiqDriver.DefaultDriver.{store_response}
use ur5_ros.RobotiqDriver.DefaultDriver.Activation.{Polls, settled, polled, wait_in_progress-Polls}
use ur5_ros.RobotiqDriver.DefaultDriver.Retries.{Fails, Outcome, send-Outcome, send_empty}

-- The bytes that the reads to come find; a read of another length is an IOException.
abbrev Script : Type 0
Script = List (List ℕ)

abbrev read_script : ℕ → Script → Result SerialError (List ℕ) × Script
read_script size [] = (err io_exception, [])
read_script size (bytes ∷ rest) =
    if length bytes == size then (ok bytes, rest) else (err io_exception, rest)

read_script-length :
    (size : ℕ) (p q : Script) (bytes : List ℕ)
    → read_script size p ≡ (ok bytes, q)
    → length bytes ≡ size
read_script-length size [] q bytes e = absurd (cc)
read_script-length size (b ∷ rest) q bytes e = ground arith

abbrev scripted : Serial
scripted = record {
  Port = Script;
  open_port = λ p. (ok tt, p);
  is_open = λ _. true;
  close_port = λ p. (ok tt, p);
  read = read_script;
  write = λ _ p. (ok tt, p);
  read_length = read_script-length;
}

-- A driver with a script before it.
abbrev driver_at : GripperStatus → Script → DefaultDriver Script
driver_at s script = record {
  port = script;
  slave_address = 9;
  activation_status = active;
  action_status = stopped;
  gripper_status = s;
  object_detection_status = at_requested_position;
  gripper_position = 3;
  commanded_gripper_speed = 0x80;
  commanded_gripper_force = 0x80;
}

abbrev ready_response : List ℕ
ready_response = 9 ∷ 3 ∷ 12 ∷ 0xf9 ∷ 0 ∷ 0 ∷ 0 ∷ 3 ∷ 0 ∷ 0 ∷ 0 ∷ 0 ∷ 0 ∷ 0 ∷ 0 ∷ 0 ∷ 0 ∷ []

abbrev busy_response : List ℕ
busy_response = 9 ∷ 3 ∷ 12 ∷ 0xd9 ∷ 0 ∷ 0 ∷ 0 ∷ 3 ∷ 0 ∷ 0 ∷ 0 ∷ 0 ∷ 0 ∷ 0 ∷ 0 ∷ 0 ∷ 0 ∷ []

create_write_command-checks_example :
    let frame = create_write_command 9 0x03e8 (0x0100 ∷ 0 ∷ 0 ∷ []) in
    rq_com_compute_crc (some frame) (length frame) ≡ 0
create_write_command-checks_example =
    create_write_command-checks 9 0x03e8 (0x0100 ∷ 0 ∷ 0 ∷ []) (omega arith)

parse_write-create_write_command_example :
    parse_write (create_write_command 9 0x03e8 (0x0900 ∷ 200 ∷ 0xffff ∷ []))
    ≡ some (record {
      address = 9;
      function = 0x10;
      register = 0x03e8;
      count = 3;
      num_bytes = 6;
      words = 0x0900 ∷ 200 ∷ 0xffff ∷ [];
    })
parse_write-create_write_command_example =
    parse_write-create_write_command 9 0x03e8 (0x0900 ∷ 200 ∷ 0xffff ∷ []) (omega arith)
      (omega arith) (omega arith) (omega arith)

process_response-codes_example :
    process_response ready_response (driver_at in_progress [])
    ≡ record (driver_at completed []) { action_status = ActionStatus.moving }
process_response-codes_example =
    process_response-codes (driver_at in_progress []) ready_response active ActionStatus.moving
      completed at_requested_position 0 (omega arith) (omega arith)

send-Outcome_example :
    let (r, d') = send scripted (1 ∷ []) 2 (driver_at completed ((7 ∷ []) ∷ (7 ∷ 8 ∷ []) ∷ [])) in
    Outcome scripted (1 ∷ []) 2 5 ((7 ∷ []) ∷ (7 ∷ 8 ∷ []) ∷ []) (r, d'.port)
    × (d' ≡ record (driver_at completed ((7 ∷ []) ∷ (7 ∷ 8 ∷ []) ∷ [])) { port = d'.port })
send-Outcome_example =
    send-Outcome scripted (1 ∷ []) 2 (driver_at completed ((7 ∷ []) ∷ (7 ∷ 8 ∷ []) ∷ []))

silent : (send scripted (1 ∷ []) 2 (driver_at completed [])).0 ≡ ok []
unfolding send attempt
silent = refl

send_empty_example :
    Fails scripted (1 ∷ []) 2 5 [] (send scripted (1 ∷ []) 2 (driver_at completed [])).1.port
send_empty_example = send_empty scripted (1 ∷ []) 2 (driver_at completed []) (omega arith) silent

abbrev ready_driver : DefaultDriver Script
ready_driver = record (driver_at completed []) { action_status = ActionStatus.moving }

ready_poll :
    update_status scripted (driver_at in_progress (ready_response ∷ [])) ≡ (ok tt, ready_driver)
unfolding update_status attempt send process_response store_response
ready_poll = refl

one_poll : Polls scripted 1 (driver_at in_progress (ready_response ∷ [])) ready_driver
one_poll = polled refl ready_poll (settled (λ e. cc))

wait_in_progress-Polls_example :
    wait_in_progress scripted 3 (driver_at in_progress (ready_response ∷ []))
    ≡ some (ok tt, ready_driver)
wait_in_progress-Polls_example =
    wait_in_progress-Polls scripted 3 1 (driver_at in_progress (ready_response ∷ [])) ready_driver
      one_poll (omega arith)

waited :
    wait_in_progress scripted 3 (driver_at in_progress (ready_response ∷ []))
    ≡ some (ok tt, ready_driver)
unfolding wait_in_progress update_status attempt send process_response store_response
waited = refl

echo : List ℕ
echo = 9 ∷ 16 ∷ 3 ∷ 0xe8 ∷ 0 ∷ 3 ∷ 0 ∷ 0 ∷ []

activation :
    activate scripted 3 (driver_at in_progress (echo ∷ busy_response ∷ ready_response ∷ []))
    ≡ some (ok tt, ready_driver)
unfolding activate wait_in_progress start_activation write_action require update_status attempt send
    process_response echo wait_activated store_response
activation = refl
