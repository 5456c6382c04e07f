-- ===== src/ThreeFinger/DriverNode/Worker.antt =====
-- The loop of `run` with its sleeps, and the diagnostics of the driver node.
pub mod Backoff
use Prim.Native.String
use Prim.Native.String.{String}
use ur5_ros.Common.{
  ℕ, ◌-◌, Bool, true, false, ltb, if◌then◌else◌, List, [], ◌∷◌, Option, none, some, ◌==◌,
}
use ur5_ros.Common.Double.{ℤ, pos, negsuc}
use ur5_ros.Common.Result.{Result, ok, err}
use ur5_ros.ThreeFinger.ModbusTcp.Connect.{connect, close}
use ur5_ros.ThreeFinger.DriverNode.{
  DriverNode, Failure, Round, mark_disconnected, on_client, connection_result, exchange_round,
  caught, newly_connected,
}
use ur5_ros.ThreeFinger.DriverNode.Parameters.{Settings}

-- What a turn of the loop meets: the flag that it tests, the answers of its calls, the time that its
-- exchange took, and the flag at the end of its sleep, negated as `sleep_interruptibly` returns it.
pub record Turn : Type 0 where
  pub stop_requested : Bool
  pub round : Round
  pub elapsed : ℕ
  pub slept_through : Bool

-- A pass through the body: the sleep, if there is one, and whether the loop goes on.
pub record Passed : Type 0 where
  pub slept : Option ℕ
  pub goes_on : Bool

-- The sleep for the rest of the period.
unfoldable pub rest_of_period : ℤ → ℕ → Option ℕ
rest_of_period (pos period) elapsed = if ltb elapsed period then some (period - elapsed) else none
rest_of_period (negsuc n) elapsed = none

unfoldable pub sleep_for : Option ℕ → Turn → Passed
sleep_for none t = record { slept = none; goes_on = true }
sleep_for (some time) t = record { slept = some time; goes_on = t.slept_through }

unfoldable pub attach : Passed → Option DriverNode → Option (Passed × DriverNode)
attach p none = none
attach p (some n) = some (p, n)

-- After a failure the loop continues at once, to connect again.
unfoldable pub pass_exchange :
    Settings → Turn → Option (Result Failure (Unit {0}) × DriverNode) → Passed
pass_exchange s t none = sleep_for none t
pass_exchange s t (some (ok _, n)) = sleep_for (rest_of_period s.poll_period t.elapsed) t
pass_exchange s t (some (err e, n)) = sleep_for none t

unfoldable pub finish : DriverNode → DriverNode
finish n = record n { client = close n.client; ready_for_commands = false }

unfoldable pub add_sleep : Option ℕ → Option (List ℕ × DriverNode) → Option (List ℕ × DriverNode)
add_sleep slept none = none
add_sleep none (some (sleeps, n)) = some (sleeps, n)
add_sleep (some time) (some (sleeps, n)) = some (time ∷ sleeps, n)

abbrev pub no_address : String
no_address = "gripper_ip is not configured"

-- Without an address: a report before each sleep of a second, by its time and whether the sleep
-- was not interrupted.
unfoldable pub run_unconfigured : List (ℕ × Bool) → DriverNode → Option DriverNode
run_unconfigured [] n = none
run_unconfigured ((now, true) ∷ sleeps) n =
    run_unconfigured sleeps (mark_disconnected now no_address n)
run_unconfigured ((now, false) ∷ sleeps) n = some (mark_disconnected now no_address n)

module _ (what : Failure → String) (s : Settings) where
  unfoldable pub turn_exchange :
      Turn → Option (Result Failure (Unit {0}) × DriverNode) → Option (Passed × DriverNode)
  turn_exchange t o = attach (pass_exchange s t o) (caught what t.round.now o)

  -- A connection that fails sleeps for the delay as it is before it is doubled; after a `break` the
  -- delay is not read any more.
  unfoldable pub turn_connect :
      Turn → Option (Result Failure (Unit {0}) × DriverNode) → Option (Passed × DriverNode)
  turn_connect t none = none
  turn_connect t (some (err e, n)) =
      attach (sleep_for (some n.reconnect_delay) t)
        (connection_result what t.round (some (err e, n)))
  turn_connect t (some (ok _, n)) = turn_exchange t (exchange_round t.round (newly_connected n))

  unfoldable pub turn : Turn → DriverNode → Option (Passed × DriverNode)
  turn t n =
      if n.client.is_open
      then turn_exchange t (exchange_round t.round n)
      else turn_connect t (on_client (connect t.round.connect_answers) n)

  unfoldable pub after_turn :
      (DriverNode → Option (List ℕ × DriverNode))
      → Option (Passed × DriverNode)
      → Option (List ℕ × DriverNode)
  after_turn next none = none
  after_turn next (some (p, n)) =
      add_sleep p.slept (if p.goes_on then next n else some ([], finish n))

  -- The loop, with the sleeps in their order; `none` where the turns end before it does.
  unfoldable pub run_loop : List Turn → DriverNode → Option (List ℕ × DriverNode)
  run_loop [] n = none
  run_loop (t ∷ turns) n =
      if t.stop_requested
      then some ([], finish n)
      else after_turn (λ m. run_loop turns m) (turn t n)

-- The levels of a diagnostic status.
pub data Level : Type 0 where
  fine : Level
  warning : Level
  error : Level

unfoldable pub is_empty : String → Bool
is_empty text = String.len text == 0

-- The summary of `diagnose`.
unfoldable pub diagnose : Settings → DriverNode → Level × String
diagnose s n =
    if is_empty s.address
    then (error, "gripper_ip is unset")
    else if n.connected
    then (fine, "connected and polling status")
    else (warning, n.last_diagnostic)

-- The values that `diagnose` adds.
pub record Values : Type 0 where
  pub gripper_ip : String
  pub port : ℕ
  pub unit_id : ℕ
  pub automatic_release_allowed : Bool
  pub connection_id : ℕ

unfoldable pub diagnose_values : Settings → DriverNode → Values
diagnose_values s n = record {
  gripper_ip = s.address;
  port = s.port;
  unit_id = n.client.unit_id;
  automatic_release_allowed = n.allow_automatic_release;
  connection_id = n.connection_id;
}
