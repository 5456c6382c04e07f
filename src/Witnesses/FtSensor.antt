-- ===== src/Witnesses/FtSensor.antt =====
-- The component of the force-torque sensor on concrete values: an effort is the integer before the
-- division, and no offset is subtracted.
use ur5_ros.Sensor.Standalone.Agreement.{Same}
use ur5_ros.Sensor.Standalone.{SensorNode, update}
use ur5_ros.Sensor.Standalone.Rounds.{Agrees, update-Agrees}
use ur5_ros.Sensor.Modbus
use ur5_ros.Sensor.Hardware.Activation.{on_activate-run}
use ur5_ros.Sensor.Hardware.Snapshots.{Exposed}
use ur5_ros.Crc.Bitwise.{rq_com_compute_crc}
use ur5_ros.Sensor.Commands.{state_got_new_message}
use ur5_ros.Sensor.Hardware.Exposed.{Reachable-Exposed, reading, background, activating}
use ur5_ros.Sensor.Modbus.{Echo, fc_03_request, fc_16_frame}
use ur5_ros.Common.{ℕ, ◌≡◌, refl, true, false, some, none, List, [], ◌∷◌, replicate, ◌++◌}
use ur5_ros.Common.Double.{ℤ, pos}
use ur5_ros.Sensor.Listen.{
  search, Sensor, listen_stream, get_received_data, got_new_message, listen_read, count_timers,
  take_offset, search_message, scan_at, is_header, crc_valid, accept_message, drop_message, efforts,
  effort, int_16, receive, copy_received,
}
use ur5_ros.Sensor.Machine
use ur5_ros.Sensor.Machine.{
  Driver, Replies, Meets, rq_sensor_state, by_state, state_run, state_init,
}
use ur5_ros.Sensor.Hardware.{
  FtSensor, on_activate, read_background, activated, take_message, read, then_run, store_readings,
  run_machine, received, after_wait, sensor_state_machine, is_run, put_result,
}

abbrev undivided : ℤ → ℕ → ℤ
undivided z d = z

abbrev without_offset : ℤ → ℤ → ℤ
without_offset x y = x

abbrev zeros : List ℤ
zeros = replicate 6 (pos 0)

-- A message of the efforts 1 to 6.
abbrev message : List ℕ
message = 0x20 ∷ 0x4e ∷ 1 ∷ 0 ∷ 2 ∷ 0 ∷ 3 ∷ 0 ∷ 4 ∷ 0 ∷ 5 ∷ 0 ∷ 6 ∷ 0 ∷ 0x7c ∷ 0x5b ∷ []

abbrev quiet : Sensor ℤ
quiet = record {
  received_data = zeros;
  received_data_offset = zeros;
  msg_received = 0;
  rcv_buff2 = [];
  zero_force_flag = false;
  sensor_watchdog = false;
  stream_detected = false;
  valid_stream = false;
  new_message = false;
  timer_for_stream_detection = 0;
  timer_for_valid_stream = 0;
}

abbrev no_echo : Echo
no_echo = record { buffer = []; old_length = 0; counter_no_new_data = 0 }

-- The driver in the state run, after hearing what the sensor holds.
abbrev driver_with : Sensor ℤ → Driver ℤ
driver_with sensor = record {
  sensor = sensor;
  echo_03 = no_echo;
  echo_16 = no_echo;
  firmware_version = [];
  production_year = none;
  serial_number = none;
  current_state = Machine.run;
  retries = 0;
  written = [];
}

abbrev no_replies : Replies
no_replies = record { request_array = []; reads = λ _. some [] }

abbrev meets : Meets undivided
meets = record {
  max_retries = 3;
  connected = false;
  connected_driver = driver_with quiet;
  firmware = no_replies;
  year = no_replies;
  serial = no_replies;
  answers = λ _. [];
  reads = [];
  read = some message;
}

abbrev hear : Sensor ℤ → Sensor ℤ
hear sensor = listen_stream undivided (some message) sensor

abbrev heard : Sensor ℤ
heard = hear (hear (hear quiet))

abbrev component_with : Driver ℤ → List ℤ → List ℤ → FtSensor ℤ
component_with driver states readings = record {
  driver = driver;
  use_fake_mode = false;
  max_retries = pos 3;
  read_rate = pos 10;
  ftdi_id = "";
  sensor_states = states;
  readings = readings;
  running = true;
}

abbrev nan : ℤ
nan = pos 99

abbrev active : FtSensor ℤ
active = component_with (driver_with heard) (replicate 6 nan) (replicate 6 nan)

abbrev efforts_read : List ℤ
efforts_read = pos 1 ∷ pos 2 ∷ pos 3 ∷ pos 4 ∷ pos 5 ∷ pos 6 ∷ []

abbrev taken : Driver ℤ
taken = driver_with (record (hear heard) { new_message = false })

abbrev filled : FtSensor ℤ
filled = component_with taken (replicate 6 nan) efforts_read

activation :
    on_activate undivided
      (pos 0)
      nan
      without_offset
      (meets, [])
      (meets, [])
      (meets, [])
      (component_with (driver_with quiet) [] [])
    ≡ some active
unfolding on_activate activated then_run run_machine after_wait sensor_state_machine put_result
    rq_sensor_state by_state state_run listen_stream listen_read count_timers take_offset
    search_message search scan_at is_header crc_valid accept_message drop_message efforts effort
    int_16 rq_com_compute_crc receive copy_received
activation = refl

machine_round :
    run_machine undivided (pos 0) nan without_offset meets [] active
    ≡ some (component_with (driver_with (hear heard)) (replicate 6 nan) (replicate 6 nan))
unfolding run_machine after_wait sensor_state_machine put_result rq_sensor_state by_state state_run
    listen_stream listen_read count_timers take_offset search_message search scan_at is_header
    crc_valid accept_message drop_message efforts effort int_16 rq_com_compute_crc receive
    copy_received
machine_round = refl

round : read_background undivided (pos 0) nan without_offset meets [] active ≡ some filled
unfolding read_background take_message store_readings received get_received_data is_run
    state_got_new_message got_new_message run_machine after_wait sensor_state_machine put_result
    rq_sensor_state by_state state_run listen_stream listen_read count_timers take_offset
    search_message search scan_at is_header crc_valid accept_message drop_message efforts effort
    int_16 rq_com_compute_crc receive copy_received
round = refl

Reachable-Exposed_example :
    Exposed undivided
      (pos 0)
      nan
      without_offset
      ((driver_with (hear heard)) ∷ [])
      (read undivided (pos 0) nan without_offset filled)
Reachable-Exposed_example =
    Reachable-Exposed undivided (pos 0) nan without_offset ((driver_with (hear heard)) ∷ [])
      (read undivided (pos 0) nan without_offset filled)
      (reading filled (
        background meets [] active
          (component_with (driver_with (hear heard)) (replicate 6 nan) (replicate 6 nan)) filled
          (activating (meets, []) (meets, []) (meets, []) (component_with (driver_with quiet) [] [])
            active activation)
          refl machine_round round))

abbrev node : SensorNode ℤ
node = record {
  driver = driver_with heard;
  max_retries = pos 3;
  ftdi_id = "";
  frame_id = "sensor";
  published = [];
}

active-Same : Same [] (replicate 6 nan) active node
active-Same = record {
  real = refl;
  driver = refl;
  retries = refl;
  readings_lem = refl;
  published_lem = refl;
}

update-Agrees_example :
    Agrees []
      (replicate 6 nan)
      (read_background undivided (pos 0) nan without_offset meets [] active)
      (update undivided (pos 0) without_offset 5 meets [] node)
update-Agrees_example =
    update-Agrees undivided (pos 0) nan without_offset [] (replicate 6 nan) 5 meets [] active node
      active-Same

-- An activation that finds the device; no reply to its requests comes, and the stream is heard.
abbrev found : Meets undivided
found = record meets { connected = true }

abbrev silent : Meets undivided
silent = record meets { reads = some message ∷ [] }

abbrev unconnected : FtSensor ℤ
unconnected = component_with (record (driver_with quiet) { current_state = Machine.init }) [] []

abbrev streaming : Driver ℤ
streaming = record (driver_with (hear quiet)) {
  echo_03 = record { buffer = []; old_length = 0; counter_no_new_data = 5 };
  echo_16 = record { buffer = []; old_length = 0; counter_no_new_data = 5 };
  written =
      fc_03_request 500 6
      ++ fc_03_request 514 2
      ++ fc_03_request 510 8
      ++ fc_16_frame 410 2 (0x0200 ∷ []);
}

abbrev streaming_component : FtSensor ℤ
streaming_component = component_with streaming (replicate 6 nan) (replicate 6 nan)

full_activation :
    on_activate undivided
      (pos 0)
      nan
      without_offset
      (found, [])
      (meets, [])
      (silent, [])
      unconnected
    ≡ some streaming_component
unfolding on_activate activated then_run run_machine after_wait sensor_state_machine put_result
    rq_sensor_state by_state state_init Machine.state_start_stream Machine.com_start_stream
    Machine.after_request Machine.read_info_high_lvl Machine.read_registers Machine.set_serial
    Machine.set_year Machine.put_sensor Machine.set_firmware Machine.wait_for_stream
    Modbus.send_fc_16 Modbus.tries_16 Modbus.wait_for_fc_16_echo Modbus.read_reply_16 Modbus.settle
    Modbus.send_fc_03 Modbus.read_words Modbus.tries_03 Modbus.wait_for_fc_03_echo
    Modbus.read_reply_03 listen_stream listen_read count_timers take_offset search_message search
    scan_at is_header crc_valid accept_message drop_message efforts effort int_16 rq_com_compute_crc
    receive copy_received
full_activation = refl

on_activate-run_example :
    (streaming.current_state ≡ Machine.run) × (streaming_component.running ≡ true)
on_activate-run_example =
    on_activate-run undivided (pos 0) nan without_offset found meets silent [] [] [] unconnected
      streaming_component refl refl tt tt tt full_activation
