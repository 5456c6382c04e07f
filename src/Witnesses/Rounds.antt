-- ===== src/Witnesses/Rounds.antt =====
-- A round of the driver node with a gripper that answers.
use ur5_ros.ThreeFinger.ModbusTcp.System.{invalid_address}
use ur5_ros.Common.Result.{ok}
use ur5_ros.Common.Double.{pos}
use ur5_ros.Witnesses.Doubles.{whole_numbers}
use ur5_ros.ThreeFinger.DriverNode.Worker.{Turn, run_loop}
use ur5_ros.ThreeFinger.DriverNode.Parameters.{
  DriverParameters, Settings, new_driver_node, construct, required, new_client, within, at_least,
  rate_refused, poll_period_of,
}
use ur5_ros.ThreeFinger.Protocol.Command.{read_image}
use ur5_ros.ThreeFinger.DriverNode.Rounds.{delivered, Answered, worker_round-delivers}
use ur5_ros.ThreeFinger.DriverNode.{
  DriverNode, admits, worker_round, Round, store_command, receive_command, mark_disconnected,
  connection_result, on_client, put_client, step_to, at_start, polled, received, stored,
}
use ur5_ros.Common.{
  ℕ, ◌≡◌, refl, true, some, none, List, [], ◌∷◌, arith, false, length, ◌<◌, get_or, min, ◌*◌, ◌^◌,
}
use ur5_ros.ThreeFinger.Protocol.{pack_command, action_byte, option_byte}
use ur5_ros.ThreeFinger.ModbusTcp.{write_request, request_frame}
use ur5_ros.ThreeFinger.ModbusTcp.Connect.{connect, close}
use ur5_ros.ThreeFinger.DriverNode.Admission.{Invariant}
use ur5_ros.ThreeFinger.DriverNode.Worker.Backoff.{run_loop-backs_off, Fails}
use ur5_ros.ThreeFinger.DriverNode.Start.{constructed-Invariant}
use ur5_ros.Witnesses.ThreeFinger.{
  ready_node, client_before, image, pinch, calm_exchange, calm-PromptFor, connect_answers, said,
}

-- The image of the command: activate, mode 1, go to, position A and speed B.
abbrev pinch_image : List ℕ
pinch_image = 0x0b ∷ 0 ∷ 0 ∷ 200 ∷ 0 ∷ 0 ∷ 0 ∷ 255 ∷ 0 ∷ 0 ∷ 0 ∷ 0 ∷ 0 ∷ 0 ∷ 0 ∷ 0 ∷ []

pinch_packed : pack_command pinch ≡ some pinch_image
unfolding pack_command action_byte option_byte
pinch_packed = refl

-- The echo with the id 0, and the response with the id 1.
abbrev answers : List ℕ
answers =
    0 ∷ 0 ∷ 0 ∷ 0 ∷ 0 ∷ 6 ∷ 2 ∷ 16 ∷ 0 ∷ 0 ∷ 0 ∷ 8 ∷ 0 ∷ 1 ∷ 0 ∷ 0 ∷ 0 ∷ 19 ∷ 2 ∷ 4 ∷ 16 ∷ image

abbrev connected_node : DriverNode
connected_node = record ready_node { client = client_before answers }

abbrev round : Round
round = record {
  connect_answers = connect_answers;
  write = calm_exchange;
  read = calm_exchange;
  now = 7;
}

round-Answered : Answered pinch_image image [] round connected_node.client
unfolding request_frame write_request
round-Answered = record {
  is_open = refl;
  sized = refl;
  stream = refl;
  write_prompt = record {
    request = calm-PromptFor 29 (omega arith);
    header = calm-PromptFor 7 (omega arith);
    body = calm-PromptFor 5 (omega arith);
  };
  read_prompt = record {
    request = calm-PromptFor 12 (omega arith);
    header = calm-PromptFor 7 (omega arith);
    body = calm-PromptFor 18 (omega arith);
  };
}

pinch_admitted : admits connected_node pinch ≡ true
unfolding admits
pinch_admitted = refl

worker_round-delivers_example :
    (worker_round said round (store_command (receive_command pinch connected_node))
      ≡ some
          (delivered pinch_image image [] round pinch (record connected_node { storing = none })))
    × (read_image pinch_image ≡ some (record pinch { command_id = 0 }))
worker_round-delivers_example =
    worker_round-delivers said pinch_image image [] round pinch connected_node pinch_admitted
      pinch_packed round-Answered

abbrev parameters : DriverParameters whole_numbers
parameters = record {
  gripper_ip = "192.168.1.11";
  port = pos 502;
  unit_id = pos 2;
  poll_rate_hz = 1;
  connect_timeout_ms = pos 1000;
  response_timeout_ms = pos 500;
  reconnect_initial_ms = pos 500;
  reconnect_max_ms = pos 5000;
  allow_automatic_release = false;
}

abbrev settings : Settings
settings = record { address = "192.168.1.11"; port = 502; poll_period = pos 1000 }

abbrev started_node : DriverNode
started_node = new_driver_node whole_numbers parameters 2 1000 500 500 5000

constructed : construct whole_numbers parameters ≡ ok (settings, started_node)
unfolding construct required within at_least rate_refused poll_period_of
constructed = refl

-- An address that cannot be parsed.
abbrev refused_round : Round
refused_round = record round { connect_answers = record connect_answers { address_valid = false } }

abbrev refused_node : DriverNode
refused_node = record (mark_disconnected 7 "failed" started_node) { reconnect_delay = 1000 }

refused_run : worker_round said refused_round started_node ≡ some refused_node
unfolding worker_round connection_result on_client put_client connect close mark_disconnected
    new_driver_node new_client
refused_run = refl

constructed-Invariant_example : Invariant (store_command (receive_command pinch refused_node))
unfolding mark_disconnected new_driver_node
constructed-Invariant_example =
    constructed-Invariant whole_numbers said parameters settings started_node
      (store_command (receive_command pinch refused_node)) constructed
      (step_to (step_to (step_to at_start (polled refused_round refused_run)) (received pinch refl))
        stored)

abbrev failing : Turn
failing = record {
  stop_requested = false;
  round = refused_round;
  elapsed = 0;
  slept_through = true;
}

failing-Fails : Fails failing
unfolding connect
failing-Fails = record {
  running = refl;
  undisturbed = refl;
  refused = λ c shut. (invalid_address, close c, refl);
}

run_loop-backs_off_example :
    (sleeps : List ℕ) × (m : DriverNode) × (run_loop said settings
        (failing
          ∷ failing
          ∷ failing
          ∷ failing
          ∷ failing
          ∷ record failing { stop_requested = true }
          ∷ [])
        started_node
      ≡ some (sleeps, m))
    × (length sleeps ≡ 5)
    × ((i : ℕ) → i < 5 → get_or sleeps i 0 ≡ min (500 * 2 ^ i) 5000)
unfolding new_driver_node new_client
run_loop-backs_off_example =
    run_loop-backs_off said settings (failing ∷ failing ∷ failing ∷ failing ∷ failing ∷ [])
      (record failing { stop_requested = true }) started_node
      (failing-Fails, (failing-Fails, (failing-Fails, (failing-Fails, (failing-Fails, tt))))) refl
      refl (omega arith)
