-- ===== src/ThreeFinger/ModbusTcp.antt =====
-- robotiq_3f_driver/src/modbus_tcp_client.cpp. The operating system is a parameter of each call: the
-- readings of the clock and the answers of poll, write_some and read_some, in the order in which the
-- code asks for them, grouped by loop. Where they end, a call has not returned.
pub mod Stream
pub mod Prompt
pub mod Header
pub mod Transact
pub mod Answer
pub mod Server
pub mod Connect
pub mod System
use ur5_ros.ThreeFinger.ModbusTcp.System.{
  Call, Client, Exchange, IoAnswer, IoRound, ModbusError, append_u16, connection_closed,
  exception_response, function_code_mismatch, invalid_length, invalid_pdu_size, io_failed,
  millisecond, protocol_id_not_zero, read_failed, read_u16, socket_closed, transaction_id_mismatch,
  transferred, unexpected_byte_count, unexpected_register_echo, unit_id_mismatch, wait_for,
  would_block, write_failed,
}
use ur5_ros.Common.{
  ℕ, zero, suc, ◌+◌, ◌*◌, ◌-◌, ◌/◌, ◌%◌, min, bit_and, Bool, true, false, not, ◌||◌, Option, none,
  some, List, [], ◌∷◌, ◌++◌, length, get_or, take, drop, ltb, ◌==◌, ◌!=◌, if◌then◌else◌,
}
use ur5_ros.Common.Result.{Result, ok, err, Run, run_on, lift}
use ur5_ros.ThreeFinger.Protocol.{ProcessImage, process_image_size}

abbrev pub closed_or_moved :
    {A : Type 0}
    → (ℕ → Option (Result ModbusError A × Client))
    → ℕ
    → Client
    → Option (Result ModbusError A × Client)
closed_or_moved moved zero c = some (err connection_closed, c)
closed_or_moved moved (suc n) c = moved (suc n)

-- One iteration of a transfer loop after its wait: `moved n` is what the loop does when n bytes, not
-- 0, were transferred, and `again` what it does when none were.
abbrev pub after_io :
    {A : Type 0}
    → ModbusError
    → ℕ
    → (ℕ → Option (Result ModbusError A × Client))
    → Option (Result ModbusError A × Client)
    → IoAnswer
    → Client
    → Option (Result ModbusError A × Client)
after_io error limit moved again (transferred n) c = closed_or_moved moved (min n limit) c
after_io error limit moved again would_block c = again
after_io error limit moved again io_failed c = some (err error, c)

-- What follows a wait, unless it throws or does not return.
abbrev pub after_wait :
    {A : Type 0}
    → Option (Result ModbusError (Unit {0}))
    → Option (Result ModbusError A × Client)
    → Client
    → Option (Result ModbusError A × Client)
after_wait none next c = none
after_wait (some (ok _)) next c = next
after_wait (some (err e)) next c = some (err e, c)

-- The loop of `send_all`, by the bytes not sent.
unfoldable pub send_rounds : ℕ → List ℕ → List IoRound → Run Client ModbusError (Unit {0})
send_rounds deadline [] rounds c = some (ok tt, c)
send_rounds deadline (b ∷ bs) [] c = none
send_rounds deadline (b ∷ bs) (r ∷ rs) c =
    after_wait (wait_for c.is_open deadline r.waits)
      (after_io write_failed (length (b ∷ bs))
        (λ n.
          send_rounds deadline (drop n (b ∷ bs)) rs (record c { sent = c.sent ++ take n (b ∷ bs) }))
        (send_rounds deadline (b ∷ bs) rs c) r.io c)
      c

unfoldable pub send_all : List ℕ → Call → Run Client ModbusError (Unit {0})
send_all bytes call c =
    send_rounds (call.start + c.response_timeout * millisecond) bytes call.rounds c

-- The loop of `receive_exact`: `received` are the bytes before the offset, `missing` the others.
unfoldable pub receive_rounds : ℕ → ℕ → List ℕ → List IoRound → Run Client ModbusError (List ℕ)
receive_rounds deadline zero received rounds c = some (ok received, c)
receive_rounds deadline (suc missing) received [] c = none
receive_rounds deadline (suc missing) received (r ∷ rs) c =
    after_wait (wait_for c.is_open deadline r.waits)
      (after_io read_failed (min (suc missing) (length c.incoming))
        (λ n.
          receive_rounds deadline (suc missing - n) (received ++ take n c.incoming) rs
            (record c { incoming = drop n c.incoming }))
        (receive_rounds deadline (suc missing) received rs c) r.io c)
      c

unfoldable pub receive_exact : ℕ → Call → Run Client ModbusError (List ℕ)
receive_exact size call c =
    receive_rounds (call.start + c.response_timeout * millisecond) size [] call.rounds c

-- The application data unit of a request.
unfoldable pub request_frame : ℕ → ℕ → List ℕ → List ℕ
request_frame transaction_id unit_id pdu =
    append_u16 (append_u16 (append_u16 [] transaction_id) 0) ((1 + length pdu) % 65536)
    ++ unit_id ∷ pdu

-- The checks on the fields of a header: the number of bytes that follow the unit id.
unfoldable pub check_fields :
    ℕ → ℕ → (transaction protocol unit length_field : ℕ) → Result ModbusError ℕ
check_fields transaction_id unit_id transaction protocol unit length_field =
    if transaction != transaction_id
    then err transaction_id_mismatch
    else if protocol != 0
    then err protocol_id_not_zero
    else if unit != unit_id
    then err unit_id_mismatch
    else if ltb length_field 2 || ltb 254 length_field
    then err invalid_length
    else ok (length_field - 1)

unfoldable pub check_header : ℕ → ℕ → List ℕ → Result ModbusError ℕ
check_header transaction_id unit_id header =
    check_fields transaction_id unit_id (read_u16 header 0) (read_u16 header 2) (get_or header 6 0)
      (read_u16 header 4)

unfoldable pub check_pdu : ℕ → List ℕ → Result ModbusError (List ℕ)
check_pdu function pdu =
    if bit_and (get_or pdu 0 0) 0x80 != 0
    then err (
        exception_response (bit_and (get_or pdu 0 0) 0x7f)
          (if ltb 1 (length pdu) then get_or pdu 1 0 else 0))
    else if get_or pdu 0 0 != function
    then err function_code_mismatch
    else ok pdu

-- The stages of `transact` after its guards, from the last to the first.
unfoldable pub receive_body : List ℕ → Exchange → ℕ → Run Client ModbusError (List ℕ)
receive_body pdu x size c =
    run_on (receive_exact size x.body c) (λ response. lift (check_pdu (get_or pdu 0 0) response))

unfoldable pub accept_header : List ℕ → Exchange → List ℕ → Run Client ModbusError (List ℕ)
accept_header pdu x header c =
    run_on (lift (check_header c.transaction_id c.unit_id header) c) (receive_body pdu x)

unfoldable pub receive_response : List ℕ → Exchange → Run Client ModbusError (List ℕ)
receive_response pdu x c = run_on (receive_exact 7 x.header c) (accept_header pdu x)

unfoldable pub exchange : List ℕ → Exchange → Run Client ModbusError (List ℕ)
exchange pdu x c =
    run_on (send_all (request_frame c.transaction_id c.unit_id pdu) x.request c)
      (λ _. receive_response pdu x)

unfoldable pub transact : List ℕ → Exchange → Run Client ModbusError (List ℕ)
transact pdu x c =
    if not c.is_open
    then some (err socket_closed, c)
    else if length pdu == 0 || ltb 253 (length pdu)
    then some (err invalid_pdu_size, c)
    else exchange pdu x (record c { transaction_id = (c.transaction_id + 1) % 65536 })

abbrev pub read_request : List ℕ
read_request = 0x04 ∷ 0x00 ∷ 0x00 ∷ 0x00 ∷ 0x08 ∷ []

unfoldable pub decode_status : List ℕ → Result ModbusError ProcessImage
decode_status response =
    if length response != 18 || get_or response 1 0 != process_image_size
    then err unexpected_byte_count
    else ok (take process_image_size (drop 2 response))

unfoldable pub read_status : Exchange → Run Client ModbusError ProcessImage
read_status x c = run_on (transact read_request x c) (λ response. lift (decode_status response))

unfoldable pub write_request : ProcessImage → List ℕ
write_request command =
    append_u16 (append_u16 (0x10 ∷ []) 0) 8 ++ process_image_size % 256 ∷ command

unfoldable pub check_echo : List ℕ → Result ModbusError (Unit {0})
check_echo response =
    if length response != 5 || read_u16 response 1 != 0 || read_u16 response 3 != 8
    then err unexpected_register_echo
    else ok tt

unfoldable pub write_command : ProcessImage → Exchange → Run Client ModbusError (Unit {0})
write_command command x c =
    run_on (transact (write_request command) x c) (λ response. lift (check_echo response))
