-- ===== src/ThreeFinger/DriverNode/Start.antt =====
-- The driver node from its constructor on.
use Prim.Native.String.{String}
use mathlib.Core.Path.{subst}
use ur5_ros.Common.{ℕ, ◌≡◌, ◌≤◌, refl, arith, Bool, true, false, Option, none, some, if◌then◌else◌}
use ur5_ros.Common.Double.{Double, ℤ, pos, negsuc}
use ur5_ros.Common.Result.{Result, ok, err}
use ur5_ros.ThreeFinger.DriverNode.{
  DriverNode, Failure, Reachable, worker_round, connection_result, exchange_round, on_client,
  connect, caught,
}
use ur5_ros.ThreeFinger.DriverNode.Admission.{Invariant, AllAdmitted}
use ur5_ros.ThreeFinger.DriverNode.Safety.{Reachable-Invariant}
use ur5_ros.ThreeFinger.DriverNode.Parameters.{
  DriverParameters, ParameterError, Settings, construct, required, at_least, new_driver_node,
  poll_rate, port_range, within, unit_id_range, rate_refused, timeouts,
}
use ur5_ros.ThreeFinger.DriverNode.Worker.{Turn, Passed, turn, attach, turn_connect, turn_exchange}

-- What a construction that does not throw returns.
Ensures : {B : Type 0} → (B → Type 0) → Result ParameterError B → Type 0
Ensures P (ok b) = P b
Ensures P (err e) = Unit {0}

required-Ensures :
    {A B : Type 0} (P : B → Type 0) (e : ParameterError) (o : Option A)
    (next : A → Result ParameterError B)
    → ((a : A) → o ≡ some a → Ensures P (next a))
    → Ensures P (required e o next)
unfolding required Ensures
required-Ensures P e none next h = tt
required-Ensures P e (some a) next h = h a refl

unless-Ensures :
    {B : Type 0} (P : B → Type 0) (b : Bool) (e : ParameterError) (r : Result ParameterError B)
    → Ensures P r
    → Ensures P (if b then err e else r)
unfolding Ensures
unless-Ensures P true e r h = tt
unless-Ensures P false e r h = h

at_least-le : (low : ℕ) (z : ℤ) (n : ℕ) → at_least low z ≡ some n → low ≤ n
unfolding at_least
at_least-le low (pos k) n h = ground arith
at_least-le low (negsuc k) n h = absurd (cc)

module _ (D : Double) where
  new_driver_node-Invariant :
      (p : DriverParameters D) (unit_id connect response initial maximum : ℕ)
      → initial ≤ maximum
      → Invariant (new_driver_node D p unit_id connect response initial maximum)
  unfolding new_driver_node AllAdmitted
  new_driver_node-Invariant p unit_id connect response initial maximum h = record {
    good = record { storing = tt; pending = tt; initial = h; lower = omega arith; upper = h };
    idle = λ _. (refl, refl);
  }

  Starts : Settings × DriverNode → Type 0
  Starts x = Invariant x.1

  construct-Ensures : (p : DriverParameters D) → Ensures Starts (construct D p)
  unfolding construct Ensures Starts
  construct-Ensures p = required-Ensures Starts port_range (within 1 65535 p.port) _ (λ port _.
      required-Ensures Starts unit_id_range (within 0 255 p.unit_id) _ (λ unit_id _.
        unless-Ensures Starts (rate_refused D p.poll_rate_hz) poll_rate _ (
          required-Ensures Starts timeouts (at_least 1 p.connect_timeout_ms) _ (λ connect _.
            required-Ensures Starts timeouts (at_least 1 p.response_timeout_ms) _ (λ response _.
              required-Ensures Starts timeouts (at_least 1 p.reconnect_initial_ms) _ (λ initial _.
                required-Ensures Starts timeouts (at_least initial p.reconnect_max_ms) _
                  (λ maximum e.
                    new_driver_node-Invariant p unit_id connect response initial maximum
                      (at_least-le initial p.reconnect_max_ms maximum e))))))))

  construct-Invariant :
      (p : DriverParameters D) (s : Settings) (n : DriverNode)
      → construct D p ≡ ok (s, n)
      → Invariant n
  unfolding Ensures Starts
  construct-Invariant p s n h = subst (Ensures Starts) h (construct-Ensures p)

  -- From the node that the constructor makes of parameters that pass its checks, whatever commands
  -- arrive and whatever the gripper and the system answer, in any order of the threads' steps: every
  -- command that waits to be written has a mode of at most 3 and an id other than 0, and asks for
  -- automatic release only where that is allowed; the reconnection delay stays between its
  -- parameters; and without a connection no command is accepted and the last command's id is 0.
  pub constructed-Invariant :
      (what : Failure → String) (p : DriverParameters D) (s : Settings) (n m : DriverNode)
      → construct D p ≡ ok (s, n)
      → Reachable what n m
      → Invariant m
  constructed-Invariant what p s n m h r =
      Reachable-Invariant what n m r (construct-Invariant p s n h)

attach-state :
    (q p : Passed) (o : Option DriverNode) (m : DriverNode) → attach q o ≡ some (p, m) → o ≡ some m
unfolding attach
attach-state q p none m h = absurd (cc)
attach-state q p (some n) m h = cc

module _ (what : Failure → String) (s : Settings) (t : Turn) where
  turn_connect-state :
      (o : Option (Result Failure (Unit {0}) × DriverNode)) (m : DriverNode) (p : Passed)
      → turn_connect what s t o ≡ some (p, m)
      → connection_result what t.round o ≡ some m
  unfolding turn_connect turn_exchange connection_result
  turn_connect-state none m p h = absurd (cc)
  turn_connect-state (some (err e, n)) m p h = attach-state _ p _ m h
  turn_connect-state (some (ok u, n)) m p h = attach-state _ p _ m h

  -- A turn of the loop that runs to its end is a round of the worker.
  turn-worker_round :
      (n m : DriverNode) (p : Passed)
      → turn what s t n ≡ some (p, m)
      → worker_round what t.round n ≡ some m
  unfolding turn worker_round turn_exchange
  turn-worker_round n m p h = by_open n.client.is_open h
    where
      by_open :
          (b : Bool)
          → (if b
              then turn_exchange what s t (exchange_round t.round n)
              else turn_connect what s t (on_client (connect t.round.connect_answers) n))
            ≡ some (p, m)
          → (if b
              then caught what t.round.now (exchange_round t.round n)
              else connection_result what t.round (on_client (connect t.round.connect_answers) n))
            ≡ some m
      by_open true h = attach-state _ p _ m h
      by_open false h = turn_connect-state (on_client (connect t.round.connect_answers) n) m p h
