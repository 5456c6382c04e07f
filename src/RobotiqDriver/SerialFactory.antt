-- ===== src/RobotiqDriver/SerialFactory.antt =====
-- robotiq_driver/src/default_serial_factory.cpp and the settings of src/default_serial.cpp. The
-- settings of the serial library, which is not part of the repository, are a parameter.
use Prim.Native.String.{String}
use ur5_ros.Common.{ℕ, ◌%◌, ◌^◌, Option, some, none}
use ur5_ros.RobotiqDriver.Driver.{Parameter, value_or}

-- `lib_timeout` is the read_timeout_constant of a simple timeout.
pub record SettingsLibrary : Type 1 where
  pub Device : Type 0
  pub new_device : Device
  pub lib_set_port : String → Device → Device
  pub lib_port : Device → String
  pub lib_set_timeout : ℕ → Device → Device
  pub lib_timeout : Device → ℕ
  pub lib_set_baudrate : ℕ → Device → Device
  pub lib_baudrate : Device → ℕ

module _ (lib : SettingsLibrary) where
  open lib use {
    Device, new_device, lib_set_port, lib_port, lib_set_timeout, lib_timeout, lib_set_baudrate,
    lib_baudrate,
  }

  unfoldable pub set_port : String → Device → Device
  set_port port d = lib_set_port port d

  unfoldable pub get_port : Device → String
  get_port d = lib_port d

  -- The number of milliseconds is cast to 32 bits.
  unfoldable pub set_timeout : (milliseconds : ℕ) → Device → Device
  set_timeout milliseconds d = lib_set_timeout (milliseconds % 2 ^ 32) d

  unfoldable pub get_timeout : Device → ℕ
  get_timeout d = lib_timeout d

  unfoldable pub set_baudrate : ℕ → Device → Device
  set_baudrate baudrate d = lib_set_baudrate baudrate d

  unfoldable pub get_baudrate : Device → ℕ
  get_baudrate d = lib_baudrate d

abbrev pub port_default : String
port_default = "/dev/ttyUSB0"

abbrev pub baudrate_default : ℕ
baudrate_default = 115200

-- A baud rate that is given is cast to 32 bits.
unfoldable pub baudrate_of : Parameter ℕ → Option ℕ
baudrate_of Parameter.absent = some baudrate_default
baudrate_of Parameter.malformed = none
baudrate_of (Parameter.given n) = some (n % 2 ^ 32)

unfoldable pub configured_serial :
    (lib : SettingsLibrary)
    → (port : Option String) → (baudrate milliseconds : Option ℕ) → Option lib.Device
configured_serial lib (some port) (some baudrate) (some milliseconds) =
    some
      (set_timeout lib milliseconds (set_baudrate lib baudrate (set_port lib port lib.new_device)))
configured_serial lib none _ _ = none
configured_serial lib (some _) none _ = none
configured_serial lib (some _) (some _) none = none

-- `milliseconds` is the duration_cast of the timeout, whose default is half a second; `none` is the
-- exception of a parameter that is no number.
unfoldable pub create_serial :
    (lib : SettingsLibrary)
    → (port : Parameter String) → (baudrate milliseconds : Parameter ℕ) → Option lib.Device
create_serial lib port baudrate milliseconds =
    configured_serial lib (value_or port_default port) (baudrate_of baudrate)
      (value_or 500 milliseconds)
