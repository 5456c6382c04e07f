-- ===== src/ThreeFinger/DriverNode/Rounds.antt =====
-- A round of the worker whose transactions the gripper answers: from the stored command to the frame
-- on the wire and the published status.
use ur5_ros.ThreeFinger.DriverNode.Admission.{admits-Admitted}
use Prim.Native.String.{String}
use ur5_ros.ThreeFinger.Protocol.Command.{read_image, read_image-pack_command}
use ur5_ros.Common.{
  by_true, ℕ, ◌+◌, ◌%◌, ◌≡◌, refl, true, List, [], ◌∷◌, ◌++◌, none, some, length, ◌∙◌, arith, ap,
  sym,
}
use ur5_ros.Common.Result.{ok}
use ur5_ros.ThreeFinger.Messages.{Command, Status}
use ur5_ros.ThreeFinger.Protocol.{pack_command, unpack_status}
use ur5_ros.ThreeFinger.ModbusTcp.{request_frame, read_request, write_request}
use ur5_ros.ThreeFinger.ModbusTcp.System.{Client}
use ur5_ros.ThreeFinger.ModbusTcp.Answer.{IsPromptExchange}
use ur5_ros.ThreeFinger.ModbusTcp.Server.{
  transacted, write_echo, read_status-answered, write_command-answered,
}
use ur5_ros.ThreeFinger.DriverNode.{
  DriverNode, Round, take_pending, left_pending, exchange_round, write_packed, write_pending,
  on_client, put_client, publish_image, publish_status, store_command, worker_round,
  receive_command, caught, newest, Failure, admits, String, connection_result, connect,
}

-- The frame of the next transaction of a client.
abbrev pub next_frame : Client → List ℕ → List ℕ
next_frame c pdu = request_frame ((c.transaction_id + 1) % 65536) c.unit_id pdu

-- The response to the poll that follows a write of `command`, and what comes after it.
abbrev pub poll_stream : (command registers rest : List ℕ) → Client → List ℕ
poll_stream command registers rest c =
    next_frame (transacted (write_request command) [] c) (0x04 ∷ 16 ∷ registers) ++ rest

-- The client between the two transactions, and after both.
abbrev pub written_client : (command registers rest : List ℕ) → Client → Client
written_client command registers rest c =
    transacted (write_request command) (poll_stream command registers rest c) c

abbrev pub polled_client : (command registers rest : List ℕ) → Client → Client
polled_client command registers rest c =
    transacted read_request rest (written_client command registers rest c)

-- The gripper answers both transactions of a round: the stream begins with the echo of the write of
-- `command` and a response with the registers `registers`, and the transfers make progress.
pub record Answered (command registers rest : List ℕ) (r : Round) (c : Client) : Type 0 where
  pub is_open : c.is_open ≡ true
  pub sized : length registers ≡ 16
  pub stream : c.incoming ≡ next_frame c write_echo ++ poll_stream command registers rest c
  pub write_prompt : IsPromptExchange (next_frame c (write_request command)) write_echo c r.write
  pub read_prompt :
      IsPromptExchange
        (next_frame (written_client command registers rest c) read_request)
        (0x04 ∷ 16 ∷ registers)
        (written_client command registers rest c)
        r.read

-- The status of a round: the registers, the time, the connection and the command just written.
abbrev pub round_status : ℕ → List ℕ → Command → DriverNode → Status
round_status now registers c n = record (unpack_status registers) {
  stamp = now;
  connected = true;
  connection_id = n.connection_id;
  last_command_id = c.command_id;
  diagnostic = "connected";
}

-- The node after the round.
abbrev pub delivered : (command registers rest : List ℕ) → Round → Command → DriverNode → DriverNode
delivered command registers rest r c n = record n {
  client = polled_client command registers rest n.client;
  last_command_id = c.command_id;
  pending_command = none;
  ready_for_commands = true;
  connected = true;
  last_diagnostic = "connected";
  published = n.published ++ round_status r.now registers c n ∷ [];
}

take_pending-ready :
    (n : DriverNode) (c : Command)
    → n.ready_for_commands ≡ true
    → n.pending_command ≡ some c
    → (take_pending n ≡ some c) × (left_pending n ≡ none)
unfolding take_pending left_pending
take_pending-ready n c ready pending = (
  by_true n.ready_for_commands n.pending_command none ready ∙ pending,
  by_true n.ready_for_commands none n.pending_command ready,
)

exchange_round-delivered :
    (command registers rest : List ℕ) (r : Round) (c : Command) (n : DriverNode)
    → n.ready_for_commands ≡ true
    → n.pending_command ≡ some c
    → pack_command c ≡ some command
    → length command ≡ 16
    → Answered command registers rest r n.client
    → exchange_round r n ≡ some (ok tt, delivered command registers rest r c n)
unfolding exchange_round write_pending write_packed on_client put_client publish_image
    publish_status
exchange_round-delivered command registers rest r c n ready pending packed sized a =
    let taken = take_pending-ready n c ready pending in
    rw (
      taken.0,
      taken.1,
      packed,
      write_command-answered command (poll_stream command registers rest n.client) r.write n.client
          a.is_open sized a.write_prompt a.stream,
      read_status-answered registers rest r.read (written_client command registers rest n.client)
          a.is_open a.sized a.read_prompt refl,
    )

-- What a ready node makes of an admitted command.
record Stored (c : Command) (n : DriverNode) : Type 0 where
  command : List ℕ
  packed : pack_command c ≡ some command
  sized : length command ≡ 16
  read_back : read_image command ≡ some (record c { command_id = 0 })
  state :
      store_command (receive_command c n) ≡ record n { storing = none; pending_command = some c }

admitted-Stored : (c : Command) (n : DriverNode) → admits n c ≡ true → Stored c n
unfolding store_command receive_command newest
admitted-Stored c n h =
    let mode = (admits-Admitted n c h).mode in
    let (command, packed, sized, back) = read_image-pack_command c mode in
    record { command = command; packed = packed; sized = sized; read_back = back; state = rw h }

admits-ready : (n : DriverNode) (c : Command) → admits n c ≡ true → n.ready_for_commands ≡ true
unfolding admits
admits-ready n c h = ground arith

round-delivered :
    (what : Failure → String) (command registers rest : List ℕ) (r : Round) (c : Command)
    (n : DriverNode)
    → n.ready_for_commands ≡ true
    → n.pending_command ≡ some c
    → pack_command c ≡ some command
    → length command ≡ 16
    → Answered command registers rest r n.client
    → worker_round what r n ≡ some (delivered command registers rest r c n)
unfolding worker_round caught
round-delivered what command registers rest r c n ready pending packed sized a =
    by_true n.client.is_open (caught what r.now (exchange_round r n))
      (connection_result what r (on_client (connect r.connect_answers) n)) a.is_open
    ∙ ap (caught what r.now)
        (exchange_round-delivered command registers rest r c n ready pending packed sized a)

-- Where a node receives and stores a command that it admits, and the gripper then answers the write
-- of the packed command and the poll that follows it on the open connection, in transfers that all
-- make progress, the next round of the worker returns: it has sent the image of the command, from
-- which the gripper reads every field but the id, and then the poll; it has published one status, of
-- a connected node, with the command's id and the registers of the gripper; and it keeps no command.
pub worker_round-delivers :
    (what : Failure → String) (command registers rest : List ℕ) (r : Round) (c : Command)
    (n : DriverNode)
    → admits n c ≡ true
    → pack_command c ≡ some command
    → Answered command registers rest r n.client
    → (worker_round what r (store_command (receive_command c n))
        ≡ some (delivered command registers rest r c (record n { storing = none })))
      × (read_image command ≡ some (record c { command_id = 0 }))
worker_round-delivers what command registers rest r c n admitted packed a =
    let s = admitted-Stored c n admitted in
    let same : s.command ≡ command = cc (s.packed, packed) in
    (
      rw s.state (
          round-delivered what command registers rest r c
            (record n { storing = none; pending_command = some c }) (admits-ready n c admitted) refl
            packed (ap length (sym same) ∙ s.sized) a),
      ap read_image (sym same) ∙ s.read_back,
    )
