-- ===== src/RobotiqDriver/Serial.antt =====
-- The serial port of robotiq_driver: the interface of include/robotiq_driver/serial.hpp, and its
-- implementation of src/default_serial.cpp over the serial library.
use ur5_ros.Common.{ℕ, ◌≡◌, refl, arith, Bool, List, length, ◌==◌, if◌then◌else◌}
use ur5_ros.Common.Result.{Result, ok, err, run_next, Action, ◌>>=◌, ◌>>◌, pure, throw}

-- `serial::IOException` and the other exceptions of the serial library.
pub data SerialError : Type 0 where
  io_exception other_exception : SerialError

-- What the driver uses of a serial port, and the one thing that it relies on: a read that returns
-- has all the bytes that were asked for.
pub record Serial : Type 1 where
  pub Port : Type 0
  pub open_port : Action Port SerialError (Unit {0})
  pub is_open : Port → Bool
  pub close_port : Action Port SerialError (Unit {0})
  pub read : ℕ → Action Port SerialError (List ℕ)
  pub write : List ℕ → Action Port SerialError (Unit {0})
  pub read_length :
      (size : ℕ) (p q : Port) (bytes : List ℕ) → read size p ≡ (ok bytes, q) → length bytes ≡ size

-- The library's `serial::Serial`, which is not part of the repository. `read` fills the vector and
-- returns how many bytes it read; `write` returns how many it wrote.
pub record SerialLibrary : Type 1 where
  pub Device : Type 0
  pub lib_open : Action Device SerialError (Unit {0})
  pub lib_is_open : Device → Bool
  pub lib_close : Action Device SerialError (Unit {0})
  pub lib_read : ℕ → Action Device SerialError (List ℕ × ℕ)
  pub lib_write : List ℕ → Action Device SerialError ℕ
  pub lib_flush : Action Device SerialError (Unit {0})
  pub lib_read_count :
      (size : ℕ) (d e : Device) (bytes : List ℕ) (count : ℕ)
      → lib_read size d ≡ (ok (bytes, count), e)
      → length bytes ≡ count

module _ (lib : SerialLibrary) where
  open lib use {Device, lib_read, lib_write, lib_flush, lib_read_count}

  unfoldable pub checked_read : ℕ → List ℕ × ℕ → Action Device SerialError (List ℕ)
  checked_read size (bytes, bytes_read) =
      if bytes_read == size then pure bytes else throw io_exception

  unfoldable pub default_read : ℕ → Action Device SerialError (List ℕ)
  unfolding checked_read
  default_read size = lib_read size >>= checked_read size

  unfoldable pub default_write : List ℕ → Action Device SerialError (Unit {0})
  default_write bytes = do
    written ← lib_write bytes
    lib_flush
    if written == length bytes then pure tt else throw io_exception

  pub checked_read-length :
      (size : ℕ) (r : Result SerialError (List ℕ × ℕ) × Device) (d e : Device) (bytes : List ℕ)
      → lib_read size d ≡ r
      → run_next r (checked_read size) ≡ (ok bytes, e)
      → length bytes ≡ size
  unfolding checked_read
  checked_read-length size (ok (all, count), e') d e bytes p q =
      ground (arith, lib_read_count size d e' all count p)
  checked_read-length size (err x, e') d e bytes p q = absurd (cc)

  pub default_read-length :
      (size : ℕ) (p q : Device) (bytes : List ℕ)
      → default_read size p ≡ (ok bytes, q)
      → length bytes ≡ size
  unfolding default_read
  default_read-length size p q bytes e = checked_read-length size (lib_read size p) p q bytes refl e

-- DefaultSerial keeps the promise of the interface if the library counts what it read.
unfoldable pub default_serial : SerialLibrary → Serial
unfolding default_read default_write
default_serial lib = record {
  Port = lib.Device;
  open_port = lib.lib_open;
  is_open = lib.lib_is_open;
  close_port = lib.lib_close;
  read = default_read lib;
  write = default_write lib;
  read_length = default_read-length lib;
}
