-- ===== src/ThreeFinger/ModbusTcp/Connect.antt =====
-- connect and close of robotiq_3f_driver/src/modbus_tcp_client.cpp.
use ur5_ros.Common.{
  refl, ℕ, ◌≡◌, ◌+◌, ◌*◌, not, Bool, true, false, ◌!=◌, if◌then◌else◌, List, Option, none, some, [],
}
use ur5_ros.Common.Result.{Result, ok, err, Run}
use ur5_ros.ThreeFinger.ModbusTcp.System.{
  ModbusError, Client, WaitRound, wait_for, millisecond, invalid_address, open_failed,
  configure_failed, connect_failed, inspect_failed,
}

-- The socket's own connect: done at once, still going on (would_block, in_progress or
-- already_started), or another error.
pub data ConnectAnswer : Type 0 where
  connected : ConnectAnswer
  pending : ConnectAnswer
  refused : ConnectAnswer

-- The system's answers; `stream` is what the new connection delivers.
pub record ConnectAnswers : Type 0 where
  pub address_valid : Bool
  pub opened : Bool
  pub configured : Bool
  pub answer : ConnectAnswer
  pub start : ℕ
  pub waits : List WaitRound
  pub inspected : Bool
  pub socket_error : ℕ
  pub stream : List ℕ

unfoldable pub close : Client → Client
close c = record c { is_open = false }

-- A new socket that has been opened.
unfoldable pub open_socket : Client → Client
open_socket c = record c { is_open = true }

-- The socket as it is, with what the new connection delivers.
unfoldable pub connected_client : ConnectAnswers → Client → Client
connected_client a c = record c { incoming = a.stream; sent = [] }

-- What follows the wait for a connection that was still going on.
unfoldable pub after_connect_wait :
    Option (Result ModbusError (Unit {0})) → ConnectAnswers → Run Client ModbusError (Unit {0})
unfolding close
after_connect_wait none a c = none
after_connect_wait (some (err e)) a c = some (err e, close c)
after_connect_wait (some (ok _)) a c =
    if not a.inspected
    then some (err inspect_failed, close c)
    else if a.socket_error != 0
    then some (err connect_failed, close c)
    else some (ok tt, connected_client a c)

unfoldable pub after_connect : ConnectAnswer → ConnectAnswers → Run Client ModbusError (Unit {0})
unfolding close
after_connect connected a c = some (ok tt, connected_client a c)
after_connect refused a c = some (err connect_failed, close c)
after_connect pending a c =
    after_connect_wait (wait_for c.is_open (a.start + c.connect_timeout * millisecond) a.waits) a c

-- The socket is opened before anything can fail on it, so each later failure has to close it.
unfoldable pub connect : ConnectAnswers → Run Client ModbusError (Unit {0})
unfolding close open_socket
connect a c =
    if not a.address_valid
    then some (err invalid_address, close c)
    else if not a.opened
    then some (err open_failed, close (close c))
    else if not a.configured
    then some (err configure_failed, close (open_socket (close c)))
    else after_connect a.answer a (open_socket (close c))

-- The socket is open exactly if no exception was thrown.
unfoldable pub OpenIfOk : Option (Result ModbusError (Unit {0}) × Client) → Type 0
OpenIfOk none = Unit {0}
OpenIfOk (some (ok _, c)) = c.is_open ≡ true
OpenIfOk (some (err _, c)) = c.is_open ≡ false

after_connect_wait-OpenIfOk :
    (w : Option (Result ModbusError (Unit {0}))) (a : ConnectAnswers) (c : Client)
    → c.is_open ≡ true
    → OpenIfOk (after_connect_wait w a c)
unfolding OpenIfOk after_connect_wait close connected_client
after_connect_wait-OpenIfOk none a c h = tt
after_connect_wait-OpenIfOk (some (err e)) a c h = refl
after_connect_wait-OpenIfOk (some (ok x)) a c h = inspected a.inspected (a.socket_error != 0)
  where
    inspected :
        (seen failed : Bool)
        → OpenIfOk (
            if not seen
            then some (err inspect_failed, close c)
            else if failed
            then some (err connect_failed, close c)
            else some (ok tt, connected_client a c))
    inspected false e = refl
    inspected true true = refl
    inspected true false = h

after_connect-OpenIfOk :
    (answer : ConnectAnswer) (a : ConnectAnswers) (c : Client)
    → c.is_open ≡ true
    → OpenIfOk (after_connect answer a c)
unfolding OpenIfOk after_connect close connected_client
after_connect-OpenIfOk connected a c h = h
after_connect-OpenIfOk refused a c h = refl
after_connect-OpenIfOk pending a c h =
    after_connect_wait-OpenIfOk
      (wait_for c.is_open (a.start + c.connect_timeout * millisecond) a.waits) a c h

-- When `connect` has returned the socket is open, and when it has thrown the socket is closed,
-- whatever the state of the socket was before and wherever the attempt failed.
pub connect-OpenIfOk : (a : ConnectAnswers) (c : Client) → OpenIfOk (connect a c)
unfolding connect OpenIfOk close open_socket
connect-OpenIfOk a c = checked a.address_valid a.opened a.configured
  where
    checked :
        (v o k : Bool)
        → OpenIfOk (
            if not v
            then some (err invalid_address, close c)
            else if not o
            then some (err open_failed, close (close c))
            else if not k
            then some (err configure_failed, close (open_socket (close c)))
            else after_connect a.answer a (open_socket (close c)))
    checked false o k = refl
    checked true false k = refl
    checked true true false = refl
    checked true true true = after_connect-OpenIfOk a.answer a (open_socket (close c)) refl
