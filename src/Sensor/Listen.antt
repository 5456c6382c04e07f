-- ===== src/Sensor/Listen.antt =====
-- rq_com_listen_stream and the accessors of robotiq_ft_sensor_hardware/src/rq_sensor_com.cpp. The
-- floating-point type is a parameter, with the quotient of an integer by a constant.
pub mod Search
pub mod Messages
pub mod Bounds
pub mod Silence
use ur5_ros.Common.{
  ℕ, zero, suc, ◌+◌, ◌*◌, ◌-◌, ◌%◌, ◌^◌, Bool, true, false, not, ◌&&◌, ◌==◌, leb, ltb,
  if◌then◌else◌, List, [], ◌∷◌, ◌++◌, length, get_or, drop, Option, some, none,
}
use ur5_ros.Common.Double.{ℤ, pos, negsuc}
use ur5_ros.Crc.Bitwise.{rq_com_compute_crc}

-- MP_BUFF_SIZE and the bounds of the two timers.
abbrev pub mp_buff_size : ℕ
mp_buff_size = 1024

abbrev pub stream_detection_max : ℕ
stream_detection_max = 20

abbrev pub valid_stream_max : ℕ
valid_stream_max = 40

-- The variables of the file that the stream uses. `rcv_buff2` are the bytes in use of the second
-- buffer, so that its length is rq_com_rcv_len2.
pub record Sensor (F : Type 0) : Type 0 where
  pub received_data : List F
  pub received_data_offset : List F
  pub msg_received : ℕ
  pub rcv_buff2 : List ℕ
  pub zero_force_flag : Bool
  pub sensor_watchdog : Bool
  pub stream_detected : Bool
  pub valid_stream : Bool
  pub new_message : Bool
  pub timer_for_stream_detection : ℕ
  pub timer_for_valid_stream : ℕ

-- A word of two bytes as an INT_16.
unfoldable pub int_16 : ℕ → ℕ → ℤ
int_16 low high =
    let word = (low + high * 256) % 65536 in
    if ltb word 32768 then pos word else negsuc (65535 - word)

-- The copy into the second buffer: when it is full its index goes back to 0 and the loop ends.
unfoldable pub copy_received : List ℕ → List ℕ → List ℕ
copy_received buffer [] = buffer
copy_received buffer (b ∷ bs) =
    if length buffer == mp_buff_size then [] else copy_received (buffer ++ b ∷ []) bs

-- `last_byte` and `new_message` of the search; `last_byte` is 0 until a header is found.
pub record Scan (F : Type 0) : Type 0 where
  pub sensor : Sensor F
  pub last_byte : ℕ
  pub found : Bool

module _ {F : Type 0} where
  unfoldable pub take_offset : Sensor F → Sensor F
  take_offset s =
      if s.zero_force_flag
      then record s { zero_force_flag = false; received_data_offset = s.received_data }
      else s

  unfoldable pub count_timers : Sensor F → Sensor F
  count_timers s = record s {
    timer_for_stream_detection =
        if ltb stream_detection_max s.timer_for_stream_detection
        then stream_detection_max
        else s.timer_for_stream_detection + 1;
    stream_detected =
        if ltb stream_detection_max s.timer_for_stream_detection then false else s.stream_detected;
    timer_for_valid_stream =
        if ltb valid_stream_max s.timer_for_valid_stream
        then valid_stream_max
        else s.timer_for_valid_stream + 1;
    valid_stream = if ltb valid_stream_max s.timer_for_valid_stream then false else s.valid_stream;
  }

  -- What was read, `none` for an error, into the buffers.
  unfoldable pub receive : Option (List ℕ) → Sensor F → Sensor F
  receive none s = s
  receive (some []) s = s
  receive (some (b ∷ bs)) s = record s {
    stream_detected = true;
    timer_for_stream_detection = 0;
    rcv_buff2 = copy_received s.rcv_buff2 (b ∷ bs);
  }

unfoldable pub is_header : List ℕ → ℕ → Bool
is_header buffer i = get_or buffer i 0 == 0x20 && get_or buffer (i + 1) 0 == 0x4e

unfoldable pub crc_valid : List ℕ → ℕ → Bool
crc_valid buffer i =
    rq_com_compute_crc (some (drop i buffer)) 14
    == (get_or buffer (i + 14) 0 + get_or buffer (i + 15) 0 * 256) % 65536

module _ {F : Type 0} (quotient : ℤ → ℕ → F) where
  unfoldable pub effort : List ℕ → ℕ → ℕ → ℕ → F
  effort buffer i j divisor =
      quotient (int_16 (get_or buffer (i + 2 + 2 * j) 0) (get_or buffer (i + 3 + 2 * j) 0)) divisor

  unfoldable pub efforts : List ℕ → ℕ → List F
  efforts buffer i =
      effort buffer i 0 100
      ∷ effort buffer i 1 100
      ∷ effort buffer i 2 100
      ∷ effort buffer i 3 1000
      ∷ effort buffer i 4 1000
      ∷ effort buffer i 5 1000
      ∷ []

  -- The message at an index, by the result of its CRC check.
  unfoldable pub accept_message : Bool → ℕ → Sensor F → Sensor F
  accept_message false i s = record s { msg_received = (s.msg_received + 1) % 2 ^ 32 }
  accept_message true i s = record s {
    msg_received = (s.msg_received + 1) % 2 ^ 32;
    received_data = efforts s.rcv_buff2 i;
    valid_stream = true;
    new_message = true;
    timer_for_valid_stream = 0;
    sensor_watchdog = true;
  }

  -- One index of the search.
  unfoldable pub scan_at : ℕ → Scan F → Scan F
  scan_at i scan =
      if is_header scan.sensor.rcv_buff2 i && not scan.found
      then record scan {
        sensor = accept_message (crc_valid scan.sensor.rcv_buff2 i) i scan.sensor;
        last_byte = i + 15;
        found = true;
      }
      else scan

  -- The indices below a bound, from the last to the first.
  unfoldable pub search : ℕ → Scan F → Scan F
  search zero scan = scan
  search (suc i) scan = search i (scan_at i scan)

  unfoldable pub drop_message : Scan F → Sensor F
  drop_message scan =
      if ltb 0 scan.last_byte
      then record scan.sensor { rcv_buff2 = drop (scan.last_byte + 1) scan.sensor.rcv_buff2 }
      else scan.sensor

  unfoldable pub search_message : Sensor F → Sensor F
  search_message s =
      if leb 16 (length s.rcv_buff2)
      then drop_message
          (search (length s.rcv_buff2 - 15) (record { sensor = s; last_byte = 0; found = false }))
      else s

  -- The search is made when at least a byte was read.
  unfoldable pub listen_read : Option (List ℕ) → Sensor F → Sensor F
  listen_read none s = s
  listen_read (some []) s = s
  listen_read (some (b ∷ bs)) s = search_message (receive (some (b ∷ bs)) s)

  unfoldable pub listen_stream : Option (List ℕ) → Sensor F → Sensor F
  listen_stream read s = listen_read read (count_timers (take_offset s))

module _ {F : Type 0} (minus : F → F → F) (zero_value : F) where
  unfoldable pub get_received_data : ℕ → Sensor F → F
  get_received_data i s =
      if leb i 5
      then minus (get_or s.received_data i zero_value) (get_or s.received_data_offset i zero_value)
      else zero_value

module _ {F : Type 0} where
  unfoldable pub got_new_message : Sensor F → Bool × Sensor F
  got_new_message s = (s.new_message, record s { new_message = false })

  unfoldable pub do_zero_force_flag : Sensor F → Sensor F
  do_zero_force_flag s = record s { zero_force_flag = true }
