-- ===== src/Witnesses/ThreeFinger.antt =====
-- The three-finger gripper's driver against answers that are written out.
use ur5_ros.Common.{
  ℕ, zero, suc, ◌≡◌, refl, true, false, some, none, List, [], ◌∷◌, length, replicate, arith, All,
  ◌≤◌,
}
use Prim.Native.String.{String}
use ur5_ros.Common.Result.{ok}
use ur5_ros.ThreeFinger.Messages.{Command, empty_command}
use ur5_ros.ThreeFinger.Protocol.{pack_command, unpack_status}
use ur5_ros.ThreeFinger.Protocol.Command.{read_image, read_image-pack_command}
use ur5_ros.ThreeFinger.Protocol.Status.{status_image, status_image-unpack_status}
use ur5_ros.ThreeFinger.ModbusTcp.{
  receive_rounds, send_all, send_rounds, exchange, receive_response, accept_header, receive_body,
  check_header, check_fields, check_pdu, read_status, write_command, transact, read_request,
  write_request, request_frame, receive_exact,
}
use ur5_ros.ThreeFinger.ModbusTcp.System.{
  wait_rounds, wait_for, Client, Call, Exchange, IoRound, events, transferred,
}
use ur5_ros.ThreeFinger.ModbusTcp.Stream.{receive_exact-ok}
use ur5_ros.ThreeFinger.ModbusTcp.Prompt.{IsPrompt, PromptFor}
use ur5_ros.ThreeFinger.ModbusTcp.Transact.{transact-ok}
use ur5_ros.ThreeFinger.ModbusTcp.Header.{Transacted}
use ur5_ros.ThreeFinger.ModbusTcp.Server.{
  read_status-answered, write_command-answered, write_echo, transacted,
}
use ur5_ros.ThreeFinger.ModbusTcp.Answer.{IsPromptExchange}
use ur5_ros.ThreeFinger.ModbusTcp.Connect.{
  ConnectAnswers, OpenIfOk, connect, connect-OpenIfOk, pending,
}
use ur5_ros.ThreeFinger.DriverNode.{DriverNode, Failure}

abbrev pub pinch : Command
pinch = record empty_command {
  command_id = 7;
  activate = true;
  mode = 1;
  go_to = true;
  position_a = 200;
  speed_b = 255;
}

read_image-pack_command_example :
    (image : List ℕ) × (pack_command pinch ≡ some image)
    × (length image ≡ 16)
    × (read_image image ≡ some (record pinch { command_id = 0 }))
read_image-pack_command_example = read_image-pack_command pinch (omega arith)

status_image-unpack_status_example :
    status_image
      (unpack_status (0xf9 ∷ 0x55 ∷ 5 ∷ 1 ∷ 2 ∷ 3 ∷ 4 ∷ 5 ∷ 6 ∷ 7 ∷ 8 ∷ 9 ∷ 10 ∷ 11 ∷ 12 ∷ 99 ∷ []))
    ≡ 0xf9 ∷ 0x55 ∷ 5 ∷ 1 ∷ 2 ∷ 3 ∷ 4 ∷ 5 ∷ 6 ∷ 7 ∷ 8 ∷ 9 ∷ 10 ∷ 11 ∷ 12 ∷ 0 ∷ []
status_image-unpack_status_example =
    status_image-unpack_status 0xf9 0x55 5 1 2 3 4 5 6 7 8 9 10 11 12 99 (omega arith) (omega arith)

-- A round that moves three bytes at most.
abbrev ready_round : IoRound
ready_round = record {
  waits = record { now = 20; answer = events false true } ∷ [];
  io = transferred 3;
}

abbrev calm : ℕ → Call
calm n = record { start = 10; rounds = replicate n ready_round }

ready-IsPrompt : IsPrompt 500000010 ready_round
unfolding IsPrompt wait_rounds
ready-IsPrompt = (refl, 2, refl)

calm-IsPrompt : (n : ℕ) → All (IsPrompt 500000010) (replicate n ready_round)
calm-IsPrompt zero = tt
calm-IsPrompt (suc n) = (ready-IsPrompt, calm-IsPrompt n)

abbrev pub image : List ℕ
image = 0x31 ∷ 0 ∷ 0 ∷ 0 ∷ 0 ∷ 0 ∷ 0 ∷ 0 ∷ 0 ∷ 0 ∷ 0 ∷ 0 ∷ 0 ∷ 0 ∷ 0 ∷ 0 ∷ []

abbrev pub client_before : List ℕ → Client
client_before incoming = record {
  is_open = true;
  unit_id = 2;
  connect_timeout = 1000;
  response_timeout = 500;
  transaction_id = 65535;
  incoming = incoming;
  sent = [];
}

-- The transaction id goes back to 0.
abbrev status_client : Client
status_client = client_before (0 ∷ 0 ∷ 0 ∷ 0 ∷ 0 ∷ 19 ∷ 2 ∷ 4 ∷ 16 ∷ image)

abbrev echo_client : Client
echo_client = client_before (0 ∷ 0 ∷ 0 ∷ 0 ∷ 0 ∷ 6 ∷ 2 ∷ 16 ∷ 0 ∷ 0 ∷ 0 ∷ 8 ∷ [])

abbrev pub calm_exchange : Exchange
calm_exchange = record { request = calm 40; header = calm 40; body = calm 40 }

pub calm-PromptFor : (n : ℕ) → n ≤ 40 → PromptFor n 500 (calm 40)
unfolding PromptFor
calm-PromptFor n h = (omega (arith, h), calm-IsPrompt 40)

status_prompt :
    IsPromptExchange
      (request_frame 0 2 read_request)
      (0x04 ∷ 16 ∷ image)
      status_client
      calm_exchange
unfolding request_frame
status_prompt = record {
  request = calm-PromptFor 12 (omega arith);
  header = calm-PromptFor 7 (omega arith);
  body = calm-PromptFor 18 (omega arith);
}

echo_prompt :
    IsPromptExchange (request_frame 0 2 (write_request image)) write_echo echo_client calm_exchange
unfolding request_frame PromptFor write_request
echo_prompt = record {
  request = calm-PromptFor 29 (omega arith);
  header = calm-PromptFor 7 (omega arith);
  body = calm-PromptFor 5 (omega arith);
}

read_status-answered_example :
    read_status calm_exchange status_client
    ≡ some (ok image, transacted read_request [] status_client)
unfolding request_frame
read_status-answered_example =
    read_status-answered image [] calm_exchange status_client refl refl status_prompt refl

write_command-answered_example :
    write_command image calm_exchange echo_client
    ≡ some (ok tt, transacted (write_request image) [] echo_client)
unfolding request_frame
write_command-answered_example =
    write_command-answered image [] calm_exchange echo_client refl refl echo_prompt refl

abbrev chunked : Call
chunked = calm 40

abbrev status_header : List ℕ
status_header = 0 ∷ 0 ∷ 0 ∷ 0 ∷ 0 ∷ 19 ∷ 2 ∷ []

receive_exact_run :
    receive_exact 7 chunked status_client
    ≡ some (ok (0 ∷ 0 ∷ 0 ∷ 0 ∷ 0 ∷ 19 ∷ 2 ∷ []), client_before (4 ∷ 16 ∷ image))
unfolding receive_exact receive_rounds wait_for wait_rounds
receive_exact_run = refl

receive_exact-ok_example :
    (length status_header ≡ 7)
    × (status_client.incoming ≡ 0 ∷ 0 ∷ 0 ∷ 0 ∷ 0 ∷ 19 ∷ 2 ∷ 4 ∷ 16 ∷ image)
    × (client_before (4 ∷ 16 ∷ image) ≡ record status_client { incoming = 4 ∷ 16 ∷ image })
receive_exact-ok_example =
    receive_exact-ok 7 chunked status_client (client_before (4 ∷ 16 ∷ image))
      (0 ∷ 0 ∷ 0 ∷ 0 ∷ 0 ∷ 19 ∷ 2 ∷ []) receive_exact_run

transact_run :
    transact read_request calm_exchange status_client
    ≡ some (ok (4 ∷ 16 ∷ image), transacted read_request [] status_client)
unfolding transact exchange receive_response accept_header receive_body check_header check_fields
    check_pdu receive_exact receive_rounds send_all send_rounds wait_for wait_rounds request_frame
transact_run = refl

transact-ok_example :
    Transacted read_request status_client
      (4 ∷ 16 ∷ image)
      (transacted read_request [] status_client)
transact-ok_example =
    transact-ok read_request (4 ∷ 16 ∷ image) calm_exchange status_client
      (transacted read_request [] status_client) transact_run

abbrev pub connect_answers : ConnectAnswers
connect_answers = record {
  address_valid = true;
  opened = true;
  configured = true;
  answer = pending;
  start = 10;
  waits = record { now = 20; answer = events false true } ∷ [];
  inspected = true;
  socket_error = 0;
  stream = image;
}

connect-OpenIfOk_example : OpenIfOk (connect connect_answers status_client)
connect-OpenIfOk_example = connect-OpenIfOk connect_answers status_client

abbrev pub idle_node : DriverNode
idle_node = record {
  client = record (client_before []) { is_open = false };
  allow_automatic_release = false;
  reconnect_initial = 500;
  reconnect_max = 5000;
  reconnect_delay = 500;
  ready_for_commands = false;
  connection_id = 0;
  last_command_id = 0;
  storing = none;
  pending_command = none;
  connected = false;
  last_diagnostic = "not connected";
  published = [];
}

abbrev pub said : Failure → String
said f = "failed"

abbrev pub ready_node : DriverNode
ready_node = record idle_node {
  client = client_before [];
  ready_for_commands = true;
  connected = true;
}
