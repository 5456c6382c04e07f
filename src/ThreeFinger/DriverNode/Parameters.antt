-- ===== src/ThreeFinger/DriverNode/Parameters.antt =====
-- The constructor of the driver node and what its parameters become. The `double` is a parameter.
use Prim.Native.String.{String}
use ur5_ros.Common.{ℕ, ◌&&◌, ◌||◌, not, Bool, ltb, if◌then◌else◌, Option, none, some, [], false}
use ur5_ros.Common.Double.{ℤ, pos, negsuc, Double}
use ur5_ros.Common.Result.{Result, ok, err}
use ur5_ros.ThreeFinger.ModbusTcp.System.{Client}
use ur5_ros.ThreeFinger.DriverNode.{DriverNode}

-- The std::invalid_argument of each check.
pub data ParameterError : Type 0 where
  port_range : ParameterError
  unit_id_range : ParameterError
  poll_rate : ParameterError
  timeouts : ParameterError

pub record DriverParameters (D : Double) : Type 0 where
  pub gripper_ip : String
  pub port : ℤ
  pub unit_id : ℤ
  pub poll_rate_hz : D.Carrier
  pub connect_timeout_ms : ℤ
  pub response_timeout_ms : ℤ
  pub reconnect_initial_ms : ℤ
  pub reconnect_max_ms : ℤ
  pub allow_automatic_release : Bool

-- The fields that stay as they are; the period is in milliseconds.
pub record Settings : Type 0 where
  pub address : String
  pub port : ℕ
  pub poll_period : ℤ

-- A number that is neither below `low` nor above `high`.
unfoldable pub within : (low high : ℕ) → ℤ → Option ℕ
within low high (pos n) = if ltb n low || ltb high n then none else some n
within low high (negsuc n) = none

unfoldable pub at_least : (low : ℕ) → ℤ → Option ℕ
at_least low (pos n) = if ltb n low then none else some n
at_least low (negsuc n) = none

unfoldable pub required :
    {A B : Type 0}
    → ParameterError
    → Option A
    → (A → Result ParameterError B)
    → Result ParameterError B
required e none next = err e
required e (some a) next = next a

unfoldable pub new_client : (unit_id connect_timeout response_timeout : ℕ) → Client
new_client unit_id connect_timeout response_timeout = record {
  is_open = false;
  unit_id = unit_id;
  connect_timeout = connect_timeout;
  response_timeout = response_timeout;
  transaction_id = 0;
  incoming = [];
  sent = [];
}

module _ (D : Double) where
  -- `rate <= 0.0`, which does not hold of a NaN.
  unfoldable pub rate_refused : D.Carrier → Bool
  rate_refused rate = not (D.is_nan rate) && not (D.below (D.of_int 0) rate)

  -- The duration_cast of 1 / rate seconds to milliseconds.
  unfoldable pub poll_period_of : D.Carrier → ℤ
  poll_period_of rate = D.truncate (D.mul (D.div (D.of_int 1) rate) (D.of_int 1000))

  unfoldable pub new_driver_node :
      DriverParameters D → (unit_id connect response initial maximum : ℕ) → DriverNode
  new_driver_node p unit_id connect response initial maximum = record {
    client = new_client unit_id connect response;
    allow_automatic_release = p.allow_automatic_release;
    reconnect_initial = initial;
    reconnect_max = maximum;
    reconnect_delay = initial;
    ready_for_commands = false;
    connection_id = 0;
    last_command_id = 0;
    storing = none;
    pending_command = none;
    connected = false;
    last_diagnostic = "not connected";
    published = [];
  }

  -- The checks in their order; the local variables of `run` stand in the node as it starts.
  unfoldable pub construct : DriverParameters D → Result ParameterError (Settings × DriverNode)
  construct p = required port_range (within 1 65535 p.port) (λ port.
      required unit_id_range (within 0 255 p.unit_id) (λ unit_id.
        if rate_refused p.poll_rate_hz
        then err poll_rate
        else required timeouts (at_least 1 p.connect_timeout_ms) (λ connect.
          required timeouts (at_least 1 p.response_timeout_ms) (λ response.
            required timeouts (at_least 1 p.reconnect_initial_ms) (λ initial.
              required timeouts (at_least initial p.reconnect_max_ms) (λ maximum. ok (
                record {
                  address = p.gripper_ip;
                  port = port;
                  poll_period = poll_period_of p.poll_rate_hz;
                },
                new_driver_node p unit_id connect response initial maximum,
              )))))))
