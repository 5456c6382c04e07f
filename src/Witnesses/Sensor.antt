-- ===== src/Witnesses/Sensor.antt =====
-- The sensor's driver on concrete values; an effort is the integer before the division.
use ur5_ros.Common.{
  ℕ, ◌≡◌, refl, true, false, some, none, List, [], ◌∷◌, arith, Option, get_or, ◌++◌,
}
use ur5_ros.Crc.Bitwise.{rq_com_compute_crc}
use ur5_ros.Common.Double.{ℤ, pos}
use ur5_ros.Sensor.Listen.{
  search, scan_at, is_header, crc_valid, accept_message, drop_message, efforts, effort, int_16,
  listen_read, count_timers, take_offset, receive, copy_received, Sensor, listen_stream,
  search_message,
}
use ur5_ros.Sensor.Listen.Messages.{Heard, search_message-Heard}
use ur5_ros.Sensor.Listen.Bounds.{IsBounded, listen_stream-IsBounded}
use ur5_ros.Sensor.Listen.Silence.{silent, silence_detected}
use ur5_ros.Sensor.Modbus.Portions.{Delivers, joined, send_fc_03-words, after_reply}
use ur5_ros.Sensor.Modbus.Reply.{reply_frame}
use ur5_ros.Sensor.Modbus.{
  append_crc, send_fc_16, tries_16, wait_for_fc_16_echo, read_reply_16, settle, Echo, word_bytes,
  send_fc_03, fc_16_frame, fc_03_request,
}
use ur5_ros.Sensor.Machine
use ur5_ros.Sensor.Machine.{
  by_state, state_run, after_request, put_sensor, wait_for_stream, Driver, Replies, Meets,
  rq_sensor_state, com_start_stream, Reads,
}
use ur5_ros.Sensor.Machine.States.{
  Next, rq_sensor_state-Next, Unheard, listened, com_start_stream-unbounded,
}

abbrev undivided : ℤ → ℕ → ℤ
undivided z d = z

-- A message of the efforts 1 to 6 after two other bytes.
abbrev message : List ℕ
message = 7 ∷ 0x20 ∷ 0x20 ∷ 0x4e ∷ 1 ∷ 0 ∷ 2 ∷ 0 ∷ 3 ∷ 0 ∷ 4 ∷ 0 ∷ 5 ∷ 0 ∷ 6 ∷ 0 ∷ 0x7c ∷ 0x5b ∷ []

abbrev sensor_with : List ℕ → Sensor ℤ
sensor_with buffer = record {
  received_data = pos 0 ∷ pos 0 ∷ pos 0 ∷ pos 0 ∷ pos 0 ∷ pos 0 ∷ [];
  received_data_offset = pos 0 ∷ pos 0 ∷ pos 0 ∷ pos 0 ∷ pos 0 ∷ pos 0 ∷ [];
  msg_received = 0;
  rcv_buff2 = buffer;
  zero_force_flag = true;
  sensor_watchdog = false;
  stream_detected = true;
  valid_stream = false;
  new_message = false;
  timer_for_stream_detection = 3;
  timer_for_valid_stream = 40;
}

decoded :
    (search_message undivided (sensor_with message)).received_data
    ≡ pos 1 ∷ pos 2 ∷ pos 3 ∷ pos 4 ∷ pos 5 ∷ pos 6 ∷ []
unfolding search_message search scan_at is_header crc_valid accept_message drop_message efforts
    effort int_16 rq_com_compute_crc
decoded = refl

search_message-Heard_example :
    Heard undivided (sensor_with message) (search_message undivided (sensor_with message))
search_message-Heard_example = search_message-Heard undivided (sensor_with message)

listen_stream-IsBounded_example :
    IsBounded (listen_stream undivided (some message) (sensor_with []))
listen_stream-IsBounded_example =
    listen_stream-IsBounded undivided (some message) (sensor_with [])
      (record { buffer = omega arith; detection = omega arith; valid = omega arith })

silence_detected_example : (silent undivided 19 (sensor_with [])).stream_detected ≡ false
silence_detected_example =
    silence_detected undivided 19 (sensor_with []) (omega arith) (omega arith)

abbrev no_echo : Echo
no_echo = record { buffer = []; old_length = 0; counter_no_new_data = 0 }

abbrev driver_in : Machine.State → Driver ℤ
driver_in state = record {
  sensor = sensor_with [];
  echo_03 = no_echo;
  echo_16 = no_echo;
  firmware_version = [];
  production_year = none;
  serial_number = none;
  current_state = state;
  retries = 2;
  written = [];
}

abbrev no_replies : Replies
no_replies = record { request_array = []; reads = λ _. some [] }

abbrev meets : Meets undivided
meets = record {
  max_retries = 3;
  connected = false;
  connected_driver = driver_in Machine.init;
  firmware = no_replies;
  year = no_replies;
  serial = no_replies;
  answers = λ _. [];
  reads = some (1 ∷ []) ∷ [];
  read = some [];
}

abbrev searching : Driver ℤ
searching = record (driver_in Machine.init) {
  sensor = listen_stream undivided (some []) (sensor_with []);
  retries = 0;
}

third_failure : rq_sensor_state undivided meets (driver_in Machine.run) ≡ some (true, searching)
unfolding rq_sensor_state by_state state_run listen_stream listen_read count_timers take_offset
third_failure = refl

rq_sensor_state-Next_example : Next Machine.run true Machine.init
rq_sensor_state-Next_example =
    rq_sensor_state-Next undivided meets (driver_in Machine.run) searching true third_failure

abbrev started : Driver ℤ
started = record (driver_in Machine.start_stream) {
  sensor = listen_stream undivided (some (1 ∷ [])) (sensor_with []);
  echo_16 = record { buffer = []; old_length = 0; counter_no_new_data = 5 };
  written = fc_16_frame 410 2 (0x0200 ∷ []);
}

no_answer :
    com_start_stream undivided (λ _. []) (some (1 ∷ []) ∷ []) (driver_in Machine.start_stream)
    ≡ some (true, started)
unfolding com_start_stream after_request put_sensor wait_for_stream listen_stream listen_read
    receive count_timers take_offset send_fc_16 tries_16 wait_for_fc_16_echo read_reply_16 settle
    copy_received search_message
no_answer = refl

-- Six silent reads, one more than the bound of the code.
abbrev silent_reads : Reads
silent_reads = none ∷ none ∷ none ∷ none ∷ none ∷ none ∷ []

abbrev waiting : Driver ℤ
waiting = record (driver_in Machine.start_stream) {
  sensor = record (sensor_with []) { stream_detected = false };
}

six-Unheard : Unheard undivided silent_reads waiting.sensor
unfolding Unheard listen_stream listen_read count_timers receive take_offset copy_received
    search_message
six-Unheard = (refl, (refl, (refl, (refl, (refl, (refl, tt))))))

unanswered : (send_fc_16 (λ _. []) waiting.echo_16).0 ≡ false
unfolding send_fc_16 tries_16 wait_for_fc_16_echo read_reply_16 settle
unanswered = refl

com_start_stream-unbounded_example :
    (com_start_stream undivided (λ _. []) silent_reads waiting ≡ none)
    × ((r : Option (List ℕ)) (rest : Reads)
        → (listen_stream undivided r
            (listened undivided silent_reads waiting.sensor)).stream_detected
          ≡ true
        → com_start_stream undivided (λ _. []) (silent_reads ++ r ∷ rest) waiting
          ≡ some (
            true,
            record waiting {
              sensor = listen_stream undivided r (listened undivided silent_reads waiting.sensor);
              echo_16 = (send_fc_16 (λ _. []) waiting.echo_16).1;
              written = [] ++ fc_16_frame 410 2 (0x0200 ∷ []);
            },
          ))
com_start_stream-unbounded_example =
    com_start_stream-unbounded undivided (λ _. []) silent_reads waiting unanswered six-Unheard

-- A reply in two portions, the word of the two letters FT.
abbrev reply_end : List ℕ
reply_end = 2 ∷ 0x46 ∷ 0x54 ∷ 0x6a ∷ 0x1a ∷ []

abbrev portions : ℕ → Option (List ℕ)
portions i = get_or (some (9 ∷ 3 ∷ []) ∷ some reply_end ∷ []) i none

portions-Delivers : Delivers portions 0 ((9 ∷ 3 ∷ []) ∷ reply_end ∷ [])
unfolding Delivers
portions-Delivers = (refl, omega arith, (refl, omega arith, tt))

joined_reply : joined ((9 ∷ 3 ∷ []) ∷ reply_end ∷ []) ≡ reply_frame (word_bytes 2 (0x4654 ∷ []))
unfolding joined word_bytes reply_frame append_crc rq_com_compute_crc
joined_reply = refl

send_fc_03-words_example :
    send_fc_03 500 2 [] portions no_echo
    ≡ (fc_03_request 500 2, some (0x4654 ∷ []), after_reply (word_bytes 2 (0x4654 ∷ [])))
send_fc_03-words_example =
    send_fc_03-words 500 (0x4654 ∷ []) [] portions (9 ∷ 3 ∷ []) (reply_end ∷ []) no_echo
      (omega arith, tt) (omega arith) (omega arith) refl (λ e. omega arith) portions-Delivers
      joined_reply (omega arith)
