-- ===== src/Sensor/Machine.antt =====
-- The connection, the start of the stream and the states of the sensor's driver:
-- robotiq_ft_sensor_hardware/src/rq_sensor_com.cpp and rq_sensor_state.cpp. What the reads of the
-- port give is a parameter, and `none` says that they end before the function returns.
pub mod States
use ur5_ros.Common.{
  ℕ, zero, suc, ◌+◌, ◌*◌, ◌-◌, ◌/◌, ◌%◌, ◌^◌, Bool, true, false, ◌&&◌, ◌==◌, leb, ltb,
  if◌then◌else◌, List, [], ◌∷◌, get_or, replicate, ◌++◌, Option, some, none,
}
use ur5_ros.Common.Double.{ℤ}
use ur5_ros.Sensor.Listen.{Sensor, listen_stream}
use ur5_ros.Sensor.Modbus.{Echo, send_fc_03, send_fc_16, fc_16_frame}

pub data State : Type 0 where
  init : State
  read_info : State
  start_stream : State
  run : State

-- The serial number as it is printed.
pub data SerialNumber : Type 0 where
  unknown : SerialNumber
  numbered : (letters : List ℕ) (number : ℕ) → SerialNumber

-- The variables of both files; the strings are kept as the values printed into them. `written` are
-- the bytes that were written to the port.
pub record Driver (F : Type 0) : Type 0 where
  pub sensor : Sensor F
  pub echo_03 : Echo
  pub echo_16 : Echo
  pub firmware_version : List ℕ
  pub production_year : Option ℕ
  pub serial_number : Option SerialNumber
  pub current_state : State
  pub retries : ℕ
  pub written : List ℕ

-- The replies to a read request: the old contents of the array, and what each try reads.
pub record Replies : Type 0 where
  pub request_array : List ℕ
  pub reads : ℕ → Option (List ℕ)

abbrev pub Reads : Type 0
Reads = List (Option (List ℕ))

-- The number printed, of two registers: the int of 32 bits is negative from 2 ^ 31 on, and is
-- widened to 64 bits.
unfoldable pub serial_value : ℕ → ℕ → ℕ
serial_value r3 r2 =
    let value = (r3 * 65536 + r2) % 2 ^ 32 in
    if ltb value (2 ^ 31) then value else value + (2 ^ 64 - 2 ^ 32)

-- RQ_COM_JAM_SIGNAL_LENGTH times RQ_COM_JAM_SIGNAL_CHAR.
abbrev pub jam_signal : List ℕ
jam_signal = replicate 50 0xff

module _ {F : Type 0} where
  unfoldable pub set_firmware : Option (List ℕ) → Driver F → Driver F
  set_firmware none d = d
  set_firmware (some r) d = record d {
    firmware_version =
        (get_or r 0 0 / 256)
        ∷ (get_or r 0 0 % 256)
        ∷ (get_or r 1 0 / 256)
        ∷ (get_or r 1 0 % 256)
        ∷ (get_or r 2 0 / 256)
        ∷ (get_or r 2 0 % 256)
        ∷ [];
  }

  unfoldable pub set_year : Option (List ℕ) → Driver F → Driver F
  set_year none d = d
  set_year (some r) d = record d { production_year = some (get_or r 0 0) }

  unfoldable pub set_serial : Option (List ℕ) → Driver F → Driver F
  set_serial none d = d
  set_serial (some r) d = record d {
    serial_number = some (
        if serial_value (get_or r 3 0) (get_or r 2 0) == 0
        then unknown
        else numbered ((get_or r 0 0 / 256) ∷ (get_or r 0 0 % 256) ∷ (get_or r 1 0 / 256) ∷ [])
            (serial_value (get_or r 3 0) (get_or r 2 0)));
  }

  -- A read request, with what to do with its result.
  unfoldable pub read_registers :
      ℕ → ℕ → Replies → (Option (List ℕ) → Driver F → Driver F) → Driver F → Driver F
  read_registers base n replies set d =
      let (request, result, e) = send_fc_03 base n replies.request_array replies.reads d.echo_03 in
      set result (record d { echo_03 = e; written = d.written ++ request })

  unfoldable pub read_info_high_lvl : Replies → Replies → Replies → Driver F → Driver F
  read_info_high_lvl firmware year serial d =
      read_registers 510 8 serial set_serial
        (read_registers 514 2 year set_year (read_registers 500 6 firmware set_firmware d))

module _ {F : Type 0} (quotient : ℤ → ℕ → F) where
  -- At most `left` listens, while no stream is detected.
  unfoldable pub listen_first : ℕ → Reads → Sensor F → Option (Sensor F × Reads)
  listen_first zero reads s = some (s, reads)
  listen_first (suc left) [] s = if s.stream_detected then some (s, []) else none
  listen_first (suc left) (r ∷ rs) s =
      if s.stream_detected
      then some (s, r ∷ rs)
      else listen_first left rs (listen_stream quotient r s)

  -- A jam signal is written and a listen follows, until the stream has stopped.
  unfoldable pub stop_stream_after_boot :
      Reads → (written : List ℕ) → Sensor F → Option (List ℕ × Sensor F)
  stop_stream_after_boot [] written s = if s.stream_detected then none else some (written, s)
  stop_stream_after_boot (r ∷ rs) written s =
      let rest = stop_stream_after_boot rs (written ++ jam_signal) (listen_stream quotient r s) in
      if s.stream_detected then rest else some (written, s)

  unfoldable pub stop_after_listen :
      Option (Sensor F × Reads) → (written : List ℕ) → Option (List ℕ × Sensor F)
  stop_after_listen none written = none
  stop_after_listen (some (s, [])) written = none
  stop_after_listen (some (s, r ∷ rs)) written =
      stop_stream_after_boot rs written (listen_stream quotient r s)

  -- The first letter of the firmware's version tells a sensor.
  unfoldable pub is_sensor : Option (List ℕ) → Bool
  is_sensor none = false
  is_sensor (some words) = get_or words 0 0 / 256 == 0x46

  unfoldable pub ask_version :
      Option (List ℕ × Sensor F) → Replies → Driver F → Option (Bool × Driver F)
  ask_version none replies d = none
  ask_version (some (written, s)) replies d =
      let (request, result, e) = send_fc_03 500 2 replies.request_array replies.reads d.echo_03 in
      some (is_sensor result, record d { sensor = s; echo_03 = e; written = written ++ request })

  unfoldable pub tentative_connexion : Reads → Replies → Driver F → Option (Bool × Driver F)
  tentative_connexion reads replies d =
      ask_version (stop_after_listen (listen_first 5 reads d.sensor) d.written) replies d

  -- A device by whether it can be opened and set up.
  unfoldable pub identify_device :
      (opened configured : Bool) → Reads → Replies → Driver F → Option (Bool × Driver F)
  identify_device opened configured reads replies d =
      if opened && configured then tentative_connexion reads replies d else some (false, d)

  -- The loop of start_stream after a request without an answer; as in the code, no round changes
  -- `retries`. `none` where the reads end while the loop goes on.
  unfoldable pub wait_for_stream : (retries : ℕ) → Reads → Sensor F → Option (Bool × Sensor F)
  wait_for_stream retries [] s = if ltb retries 5 then none else some (false, s)
  wait_for_stream retries (r ∷ rs) s =
      let heard = listen_stream quotient r s in
      let rest = wait_for_stream retries rs heard in
      if ltb retries 5
      then if heard.stream_detected then some (true, heard) else rest
      else some (false, s)

  unfoldable pub put_sensor : Option (Bool × Sensor F) → Driver F → Option (Bool × Driver F)
  put_sensor none d = none
  put_sensor (some (b, s)) d = some (b, record d { sensor = s })

  unfoldable pub after_request : Bool → Reads → Driver F → Option (Bool × Driver F)
  after_request true reads d = some (true, d)
  after_request false reads d = put_sensor (wait_for_stream 0 reads d.sensor) d

  -- Whether 0 is returned, not -1.
  unfoldable pub com_start_stream : (ℕ → List ℕ) → Reads → Driver F → Option (Bool × Driver F)
  com_start_stream answers reads d =
      let (accepted, e) = send_fc_16 answers d.echo_16 in
      after_request accepted reads
        (record d { echo_16 = e; written = d.written ++ fc_16_frame 410 2 (0x0200 ∷ []) })

  -- What one call of rq_sensor_state meets: `connected` is the result of rq_sensor_com, which searches
  -- the ports, with the driver that it leaves.
  pub record Meets : Type 0 where
    pub max_retries : ℕ
    pub connected : Bool
    pub connected_driver : Driver F
    pub firmware : Replies
    pub year : Replies
    pub serial : Replies
    pub answers : ℕ → List ℕ
    pub reads : Reads
    pub read : Option (List ℕ)

  unfoldable pub state_init : Meets → Driver F → Bool × Driver F
  state_init m d =
      let searched = record m.connected_driver {
        current_state = d.current_state;
        retries = d.retries;
      } in
      if m.connected
      then (true, record searched { current_state = read_info })
      else (false, searched)

  -- The state after both branches is `run`.
  unfoldable pub state_start_stream : Option (Bool × Driver F) → Option (Bool × Driver F)
  state_start_stream none = none
  state_start_stream (some (false, d)) =
      some (true, record (record d { current_state = init }) { current_state = run })
  state_start_stream (some (true, d)) = some (true, record d { current_state = run })

  unfoldable pub state_run : ℕ → Option (List ℕ) → Driver F → Driver F
  state_run max_retries read d =
      let heard = record d { sensor = listen_stream quotient read d.sensor } in
      if heard.sensor.valid_stream
      then record heard { retries = 0 }
      else if leb max_retries ((d.retries + 1) % 2 ^ 32)
      then record heard { current_state = init; retries = 0 }
      else record heard { retries = (d.retries + 1) % 2 ^ 32 }

  unfoldable pub by_state : State → Meets → Driver F → Option (Bool × Driver F)
  by_state init m d = some (state_init m d)
  by_state read_info m d = some (
    true,
    record (read_info_high_lvl m.firmware m.year m.serial d) { current_state = start_stream },
  )
  by_state start_stream m d = state_start_stream (com_start_stream m.answers m.reads d)
  by_state run m d = some (true, state_run m.max_retries m.read d)

  unfoldable pub rq_sensor_state : Meets → Driver F → Option (Bool × Driver F)
  rq_sensor_state m d = by_state d.current_state m d
