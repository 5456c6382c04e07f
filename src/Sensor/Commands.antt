-- ===== src/Sensor/Commands.antt =====
-- The accessors of robotiq_ft_sensor_hardware/src/rq_sensor_state.cpp, the commands by number and by
-- name, and the search of the device of rq_sensor_com.cpp. A text is the list of its codes.
use ur5_ros.Common.{
  ℕ, not, Bool, true, false, ◌&&◌, ◌||◌, ◌==◌, List, [], ◌∷◌, length, drop, take, Option, some,
  none, if◌then◌else◌,
}
use ur5_ros.Common.Double.{ℤ}
use ur5_ros.Sensor.Listen.{got_new_message, do_zero_force_flag}
use ur5_ros.Sensor.Machine.{Driver, SerialNumber, Reads, Replies, identify_device}

-- What is copied into the string of the caller.
pub data Answer : Type 0 where
  serial_number_text : Option SerialNumber → Answer
  firmware_text : List ℕ → Answer
  year_text : Option ℕ → Answer
  done_text : Answer
  unsupported_text : Answer

-- The constants of SensorAccessor.
abbrev pub get_serial_number : ℕ
get_serial_number = 1

abbrev pub get_firmware_version : ℕ
get_firmware_version = 2

abbrev pub get_production_year : ℕ
get_production_year = 4

abbrev pub set_zero_command : ℕ
set_zero_command = 8

-- strstr.
unfoldable pub starts_with : (text part : List ℕ) → Bool
starts_with text [] = true
starts_with [] (p ∷ ps) = false
starts_with (t ∷ ts) (p ∷ ps) = t == p && starts_with ts ps

unfoldable pub contains : (text part : List ℕ) → Bool
contains [] part = starts_with [] part
contains (t ∷ ts) part = starts_with (t ∷ ts) part || contains ts part

module _ {F : Type 0} where
  unfoldable pub state_do_zero_force_flag : Driver F → Driver F
  state_do_zero_force_flag d = record d { sensor = do_zero_force_flag d.sensor }

  unfoldable pub state_got_new_message : Driver F → Bool × Driver F
  state_got_new_message d =
      let (new, s) = got_new_message d.sensor in (new, record d { sensor = s })

  -- The command of a number: whether it is one, and the answer.
  unfoldable pub get_command : ℕ → Driver F → Bool × Answer × Driver F
  get_command command d =
      if command == get_serial_number
      then (true, serial_number_text d.serial_number, d)
      else if command == get_firmware_version
      then (true, firmware_text d.firmware_version, d)
      else if command == get_production_year
      then (true, year_text d.production_year, d)
      else if command == set_zero_command
      then (true, done_text, state_do_zero_force_flag d)
      else (false, unsupported_text, d)

  -- The information of a name; `none` leaves the string of the caller.
  unfoldable pub get_named : List ℕ → Driver F → Option Answer
  get_named name d =
      if contains name (83 ∷ 78 ∷ 85 ∷ [])
      then some (serial_number_text d.serial_number)
      else if contains name (70 ∷ 87 ∷ 86 ∷ [])
      then some (firmware_text d.firmware_version)
      else if contains name (80 ∷ 89 ∷ 69 ∷ [])
      then some (year_text d.production_year)
      else none

  -- A command of seven characters, "GET SNU" or "SET ZRO".
  unfoldable pub decode_message_and_do : List ℕ → Driver F → Option Answer × Driver F
  decode_message_and_do message d =
      let word = take 3 message in
      let name = drop 4 message in
      if not (length message == 7)
      then (none, d)
      else if contains word (71 ∷ 69 ∷ 84 ∷ [])
      then (get_named name d, d)
      else if contains word (83 ∷ 69 ∷ 84 ∷ []) && contains name (90 ∷ 82 ∷ 79 ∷ [])
      then (some done_text, state_do_zero_force_flag d)
      else (none, d)

-- A file of /sys/class/tty: its name, and what a try to connect to it meets.
pub record Entry : Type 0 where
  pub name : List ℕ
  pub opened : Bool
  pub configured : Bool
  pub reads : Reads
  pub replies : Replies

module _ {F : Type 0} (quotient : ℤ → ℕ → F) where
  -- `rq_sensor_com` of a device that is named: whether 0 is returned, not -1.
  unfoldable pub sensor_com_at : Entry → Driver F → Option (Bool × Driver F)
  sensor_com_at e d = identify_device quotient e.opened e.configured e.reads e.replies d

  unfoldable pub is_serial : List ℕ → Bool
  is_serial name =
      contains name (116 ∷ 116 ∷ 121 ∷ 83 ∷ [])
      || contains name (116 ∷ 116 ∷ 121 ∷ 85 ∷ 83 ∷ 66 ∷ [])

  -- The loop over the directory, which ends at the first device that is a sensor.
  unfoldable pub after_device :
      (Driver F → Option (Bool × Driver F)) → Option (Bool × Driver F) → Option (Bool × Driver F)
  after_device next none = none
  after_device next (some (true, d)) = some (true, d)
  after_device next (some (false, d)) = next d

  unfoldable pub sensor_com_loop : List Entry → Driver F → Option (Bool × Driver F)
  sensor_com_loop [] d = some (false, d)
  sensor_com_loop (e ∷ es) d =
      if is_serial e.name
      then after_device (λ c. sensor_com_loop es c) (sensor_com_at e d)
      else sensor_com_loop es d

  -- Without a name every serial device is tried; `none` for a directory that cannot be opened.
  unfoldable pub sensor_com : Option (List Entry) → Driver F → Option (Bool × Driver F)
  sensor_com none d = some (false, d)
  sensor_com (some entries) d = sensor_com_loop entries d
