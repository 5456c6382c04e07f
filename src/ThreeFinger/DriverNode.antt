-- ===== src/ThreeFinger/DriverNode.antt =====
-- robotiq_3f_driver/src/driver_node.cpp: the subscription that stores a command and the worker that
-- writes it and polls the status. An exception's text is a parameter, since it ends in the system's.
pub mod Admission
pub mod Stages
pub mod Safety
pub mod Rounds
pub mod Parameters
pub mod Worker
pub mod Start
use Prim.Native.String.{String}
use ur5_ros.Common.{
  ℕ, ◌≡◌, ◌+◌, ◌*◌, min, not, Bool, true, false, ◌&&◌, ◌==◌, ltb, if◌then◌else◌, List, [], ◌∷◌,
  ◌++◌, Option, none, some,
}
use ur5_ros.Common.Result.{Result, ok, err, Run, run_on}
use ur5_ros.ThreeFinger.Messages.{Command, Status, mode_scissor, empty_status}
use ur5_ros.ThreeFinger.Protocol.{ProcessImage, pack_command, unpack_status}
use ur5_ros.ThreeFinger.ModbusTcp.{read_status, write_command}
use ur5_ros.ThreeFinger.ModbusTcp.System.{ModbusError, Client, Exchange}
use ur5_ros.ThreeFinger.ModbusTcp.Connect.{ConnectAnswers, connect, close}

pub data Failure : Type 0 where
  modbus : ModbusError → Failure
  invalid_mode : Failure

-- `storing` is the command of a `receive_command` that has passed its checks and waits for the lock;
-- `published` are the statuses in their order.
pub record DriverNode : Type 0 where
  pub client : Client
  pub allow_automatic_release : Bool
  pub reconnect_initial : ℕ
  pub reconnect_max : ℕ
  pub reconnect_delay : ℕ
  pub ready_for_commands : Bool
  pub connection_id : ℕ
  pub last_command_id : ℕ
  pub storing : Option Command
  pub pending_command : Option Command
  pub connected : Bool
  pub last_diagnostic : String
  pub published : List Status

-- The checks of `receive_command`.
unfoldable pub admits : DriverNode → Command → Bool
admits n c =
    if ltb mode_scissor c.mode
    then false
    else if c.command_id == 0
    then false
    else if c.automatic_release && not n.allow_automatic_release
    then false
    else n.ready_for_commands

-- `receive_command` up to the lock, and under it.
unfoldable pub receive_command : Command → DriverNode → DriverNode
receive_command c n = record n { storing = if admits n c then some c else none }

unfoldable pub newest : Option Command → Option Command → Option Command
newest none old = old
newest (some c) old = some c

unfoldable pub store_command : DriverNode → DriverNode
store_command n = record n { storing = none; pending_command = newest n.storing n.pending_command }

unfoldable pub publish_status : ℕ → Status → Bool → String → DriverNode → DriverNode
publish_status now status connected diagnostic n = record n {
  connected = connected;
  last_diagnostic = diagnostic;
  published =
      n.published
      ++ record status {
        stamp = now;
        connected = connected;
        connection_id = n.connection_id;
        last_command_id = n.last_command_id;
        diagnostic = diagnostic;
      }
        ∷ [];
}

unfoldable pub mark_disconnected : ℕ → String → DriverNode → DriverNode
unfolding publish_status
mark_disconnected now reason n =
    publish_status now empty_status false reason
      (record n { ready_for_commands = false; last_command_id = 0; pending_command = none })

-- One round of the worker's loop: the answers to its connect, its write and its read, and the time.
pub record Round : Type 0 where
  pub connect_answers : ConnectAnswers
  pub write : Exchange
  pub read : Exchange
  pub now : ℕ

-- What the client returned or threw, with the client put back.
unfoldable pub put_client :
    {A : Type 0}
    → Option (Result ModbusError A × Client)
    → DriverNode
    → Option (Result Failure A × DriverNode)
put_client none n = none
put_client (some (ok a, c)) n = some (ok a, record n { client = c })
put_client (some (err e, c)) n = some (err (modbus e), record n { client = c })

unfoldable pub on_client : {A : Type 0} → Run Client ModbusError A → Run DriverNode Failure A
on_client run n = put_client (run n.client) n

unfoldable pub write_packed :
    Command → Option ProcessImage → Exchange → Run DriverNode Failure (Unit {0})
write_packed c none x n = some (err invalid_mode, n)
write_packed c (some image) x n =
    run_on (on_client (write_command image x) n)
      (λ _ m. some (ok tt, record m { last_command_id = c.command_id }))

unfoldable pub write_pending : Option Command → Exchange → Run DriverNode Failure (Unit {0})
write_pending none x n = some (ok tt, n)
write_pending (some c) x n = write_packed c (pack_command c) x n

-- `command.swap(pending_command_)`, on a node that is ready.
unfoldable pub take_pending : DriverNode → Option Command
take_pending n = if n.ready_for_commands then n.pending_command else none

unfoldable pub left_pending : DriverNode → Option Command
left_pending n = if n.ready_for_commands then none else n.pending_command

unfoldable pub publish_image : ℕ → ProcessImage → Run DriverNode Failure (Unit {0})
publish_image now image n = some (
  ok tt,
  record (publish_status now (unpack_status image) true "connected" n) {
    ready_for_commands = true;
  },
)

-- The `try` block of a round.
unfoldable pub exchange_round : Round → Run DriverNode Failure (Unit {0})
exchange_round r n =
    run_on (write_pending (take_pending n) r.write (record n { pending_command = left_pending n }))
      (λ _ m. run_on (on_client (read_status r.read) m) (publish_image r.now))

abbrev pub newly_connected : DriverNode → DriverNode
newly_connected n = record n {
  connection_id = n.connection_id + 1;
  ready_for_commands = false;
  last_command_id = 0;
  reconnect_delay = n.reconnect_initial;
}

module _ (what : Failure → String) where
  -- The handlers of the two `try` blocks.
  unfoldable pub caught : ℕ → Option (Result Failure (Unit {0}) × DriverNode) → Option DriverNode
  caught now none = none
  caught now (some (ok _, n)) = some n
  caught now (some (err e, n)) =
      some (mark_disconnected now (what e) (record n { client = close n.client }))

  unfoldable pub connection_result :
      Round → Option (Result Failure (Unit {0}) × DriverNode) → Option DriverNode
  connection_result r none = none
  connection_result r (some (err e, n)) = some (record (mark_disconnected r.now (what e) n) {
    reconnect_delay = min (n.reconnect_delay * 2) n.reconnect_max;
  })
  connection_result r (some (ok _, n)) = caught r.now (exchange_round r (newly_connected n))

  -- A round of the loop of `run`; the sleeps are not part of the state.
  unfoldable pub worker_round : Round → DriverNode → Option DriverNode
  worker_round r n =
      if n.client.is_open
      then caught r.now (exchange_round r n)
      else connection_result r (on_client (connect r.connect_answers) n)

  -- The threads in any order, where a round of the worker is one step and the check of a command and
  -- its storing are two; the callbacks of the subscription follow one another.
  pub data Step : DriverNode → DriverNode → Type 0 where
    received : {n : DriverNode} (c : Command) → n.storing ≡ none → Step n (receive_command c n)
    stored : {n : DriverNode} → Step n (store_command n)
    polled : {n m : DriverNode} (r : Round) → worker_round r n ≡ some m → Step n m

  pub data Reachable (start : DriverNode) : DriverNode → Type 0 where
    at_start : Reachable start start
    step_to : {n m : DriverNode} → Reachable start n → Step n m → Reachable start m
