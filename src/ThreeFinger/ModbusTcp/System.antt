-- ===== src/ThreeFinger/ModbusTcp/System.antt =====
-- What robotiq_3f_driver/src/modbus_tcp_client.cpp asks of the system, its client and its waits.
use ur5_ros.Common.{
  ℕ, ◌+◌, ◌*◌, ◌-◌, ◌/◌, ◌%◌, Bool, true, false, Option, none, some, List, [], ◌∷◌, ◌++◌, get_or,
  ◌==◌, if◌then◌else◌,
}
use ur5_ros.Common.Result.{Result, ok, err}

-- What the exceptions report.
pub data ModbusError : Type 0 where
  invalid_address : ModbusError
  open_failed : ModbusError
  configure_failed : ModbusError
  inspect_failed : ModbusError
  connect_failed : ModbusError
  socket_closed : ModbusError
  timed_out : ModbusError
  connection_failed : ModbusError
  poll_error : ModbusError
  write_failed : ModbusError
  read_failed : ModbusError
  connection_closed : ModbusError
  invalid_pdu_size : ModbusError
  transaction_id_mismatch : ModbusError
  protocol_id_not_zero : ModbusError
  unit_id_mismatch : ModbusError
  invalid_length : ModbusError
  exception_response : (function : ℕ) (code : ℕ) → ModbusError
  function_code_mismatch : ModbusError
  unexpected_byte_count : ModbusError
  unexpected_register_echo : ModbusError

-- `poll`: some events, an error among them or not and the awaited one among them or not; none within
-- the time given; EINTR; another error.
pub data PollAnswer : Type 0 where
  events : (failed : Bool) (awaited : Bool) → PollAnswer
  no_events : PollAnswer
  interrupted : PollAnswer
  poll_failed : PollAnswer

-- `read_some` and `write_some`: at most this many bytes, would_block or try_again, another error.
pub data IoAnswer : Type 0 where
  transferred : ℕ → IoAnswer
  would_block : IoAnswer
  io_failed : IoAnswer

-- The clock counts nanoseconds.
pub record WaitRound : Type 0 where
  pub now : ℕ
  pub answer : PollAnswer

pub record IoRound : Type 0 where
  pub waits : List WaitRound
  pub io : IoAnswer

pub record Call : Type 0 where
  pub start : ℕ
  pub rounds : List IoRound

-- One transaction calls `send_all` once and `receive_exact` twice.
pub record Exchange : Type 0 where
  pub request : Call
  pub header : Call
  pub body : Call

-- `incoming` are the bytes that the connection still delivers, `sent` those it has taken.
pub record Client : Type 0 where
  pub is_open : Bool
  pub unit_id : ℕ
  pub connect_timeout : ℕ
  pub response_timeout : ℕ
  pub transaction_id : ℕ
  pub incoming : List ℕ
  pub sent : List ℕ

abbrev pub read_u16 : List ℕ → ℕ → ℕ
read_u16 bytes offset = (get_or bytes offset 0 * 256 + get_or bytes (offset + 1) 0) % 65536

abbrev pub append_u16 : List ℕ → ℕ → List ℕ
append_u16 bytes value = bytes ++ (value / 256 % 256) ∷ (value % 256) ∷ []

-- Milliseconds of the timeouts in nanoseconds.
abbrev pub millisecond : ℕ
millisecond = 1000000

-- `wait_for` on an open socket, by what the rounds answer.
unfoldable pub wait_rounds : ℕ → List WaitRound → Option (Result ModbusError (Unit {0}))
wait_rounds deadline [] = none
wait_rounds deadline (w ∷ ws) =
    if (deadline - w.now) / millisecond == 0
    then some (err timed_out)
    else by_answer w.answer (wait_rounds deadline ws)
  where
    by_answer :
        PollAnswer → Option (Result ModbusError (Unit {0})) → Option (Result ModbusError (Unit {0}))
    by_answer (events true awaited) rest = some (err connection_failed)
    by_answer (events false true) rest = some (ok tt)
    by_answer (events false false) rest = rest
    by_answer no_events rest = some (err timed_out)
    by_answer interrupted rest = rest
    by_answer poll_failed rest = some (err poll_error)

unfoldable pub wait_for : Bool → ℕ → List WaitRound → Option (Result ModbusError (Unit {0}))
wait_for is_open deadline waits =
    if is_open then wait_rounds deadline waits else some (err socket_closed)
