-- ===== src/Witnesses/Hardware.antt =====
-- The hardware interface over the fake driver.
use ur5_ros.Common.Result.{ok}
use ur5_ros.RobotiqDriver.HardwareInterface.Background.{restart, on_driver, put_driver, put_run}
use ur5_ros.RobotiqDriver.ActivationController.{send_request, is_waiting, mark_waiting}
use ur5_ros.RobotiqDriver.HardwareInterface.Handshake.Places.{
  service_at, thread_at, commanded_at, pending_at, answer_at, ResponseAt, CountAt, At, nowhere,
}
use ur5_ros.Common.{◌≡◌, refl, true, false, some, none}
use ur5_ros.Common.Double.{to_uint8, same_double, max_double, min_double}
use ur5_ros.RobotiqDriver.Driver.{fake_driver, FakeDriver, new_fake}
use ur5_ros.RobotiqDriver.HardwareInterface.{
  GripperInterface, position_target, write, read, take_request, bounded_target, give_response,
  bool_double,
}
use ur5_ros.RobotiqDriver.HardwareInterface.Bytes.{Written, write-Written}
use ur5_ros.RobotiqDriver.HardwareInterface.Handshake.{
  System, Reachable, idle, looking, waiting, step_to, at_start, marks, sends, reads,
  restarts_gripper, clears, answers,
}
use ur5_ros.RobotiqDriver.HardwareInterface.Handshake.Completion.{Sound, Reachable-Sound}
use ur5_ros.Witnesses.Doubles.{optional_numbers, optional_numbers-ByteLaws}

abbrev fake_gripper : GripperInterface optional_numbers FakeDriver
fake_gripper = record {
  driver = new_fake;
  running = true;
  joinable = true;
  closed_pos = some 1;
  max_speed = some 3;
  max_force = some 200;
  position = some 0;
  velocity = some 0;
  position_command = some 1;
  write_command = 0;
  write_force = 0;
  write_speed = 0;
  current_state = 3;
  reactivate_cmd = none;
  reactivate_async_cmd = false;
  reactivate_response = some 0;
  force = some 250;
  speed = some 3;
  reactivate_async_response = none;
}

write-Written_example :
    Written optional_numbers FakeDriver fake_gripper
      (write optional_numbers fake_gripper)
      (position_target optional_numbers fake_gripper)
unfolding position_target
write-Written_example =
    write-Written optional_numbers FakeDriver fake_gripper optional_numbers-ByteLaws refl refl refl

write_run : (write optional_numbers fake_gripper).write_command ≡ 230
unfolding write to_uint8 bounded_target max_double min_double position_target
write_run = refl

abbrev quiet_system : System optional_numbers FakeDriver
quiet_system = record {
  gripper = fake_gripper;
  service = idle;
  thread = looking;
  restarts = 0;
  asked_at = 0;
}

quiet-At : At optional_numbers quiet_system nowhere
unfolding service_at thread_at commanded_at pending_at answer_at ResponseAt CountAt
quiet-At = record {
  service = refl;
  thread = refl;
  flags = record { command = refl; pending = refl; answer = refl; response = tt };
  count = tt;
}

-- A request that the control loop reads, the thread performs and answers, and the loop reads back.
abbrev asked_system : System optional_numbers FakeDriver
asked_system = record quiet_system {
  gripper = send_request optional_numbers (mark_waiting optional_numbers fake_gripper);
  service = waiting;
}

abbrev taken_gripper : GripperInterface optional_numbers FakeDriver
taken_gripper = read optional_numbers asked_system.gripper

abbrev restarted_gripper : GripperInterface optional_numbers FakeDriver
restarted_gripper = record taken_gripper { driver = record new_fake { activated = true } }

abbrev answered_gripper : GripperInterface optional_numbers FakeDriver
answered_gripper = record restarted_gripper {
  reactivate_async_cmd = false;
  reactivate_async_response = some true;
}

abbrev done_system : System optional_numbers FakeDriver
done_system = record asked_system { gripper = read optional_numbers answered_gripper; restarts = 1 }

restart_run : restart optional_numbers fake_driver 0 taken_gripper ≡ some (ok tt, restarted_gripper)
unfolding restart on_driver put_driver put_run read take_request give_response mark_waiting
    send_request
restart_run = refl

handshake_run : Reachable optional_numbers fake_driver quiet_system done_system
unfolding read take_request give_response mark_waiting send_request
handshake_run =
    step_to
      (step_to
        (step_to
          (step_to (step_to (step_to (step_to at_start (marks refl)) (sends refl)) reads)
            (restarts_gripper 0 restarted_gripper refl refl restart_run))
          (clears refl))
        (answers refl))
      reads

response_run : is_waiting optional_numbers done_system.gripper ≡ false
unfolding is_waiting same_double read take_request give_response bool_double
response_run = refl

Reachable-Sound_example : Sound optional_numbers done_system
Reachable-Sound_example =
    Reachable-Sound optional_numbers optional_numbers-ByteLaws fake_driver quiet_system done_system
      quiet-At handshake_run
