-- ===== src/ThreeFinger/DriverNode/Safety.antt =====
-- What holds of the driver node in whatever order its threads take their steps.
use mathlib.Core.Path.{subst}
use Prim.Native.String.{String}
use ur5_ros.Common.{
  ℕ, ◌≡◌, ◌≤◌, Bool, true, false, Option, none, some, refl, arith, if◌then◌else◌, min, ◌*◌,
}
use ur5_ros.Common.Result.{Result, ok, err}
use ur5_ros.ThreeFinger.ModbusTcp.System.{ModbusError, Client}
use ur5_ros.ThreeFinger.DriverNode.{
  DriverNode, Failure, put_client, on_client, exchange_round, Round, publish_status,
  mark_disconnected, close, caught, connection_result, worker_round, Step, Reachable, connect,
  received, step_to, polled, newly_connected,
}
use ur5_ros.ThreeFinger.DriverNode.{stored, received, polled, at_start, step_to}
use ur5_ros.ThreeFinger.DriverNode.Admission.{
  AllAdmitted, Good, Invariant, receive_command-Invariant, store_command-Invariant,
}
use ur5_ros.ThreeFinger.DriverNode.Stages.{Post, Running, set_client, exchange_round-Post}

some-inj : {A : Type 0} (x y : A) → some x ≡ some y → x ≡ y
some-inj x y e = cc

disconnected-Invariant :
    (now : ℕ) (reason : String) (n : DriverNode)
    → Good n
    → (delay : ℕ) → n.reconnect_initial ≤ delay
    → delay ≤ n.reconnect_max
    → Invariant (record (mark_disconnected now reason n) { reconnect_delay = delay })
unfolding mark_disconnected publish_status AllAdmitted
disconnected-Invariant now reason n g delay l u = record {
  good = record { storing = g.storing; pending = tt; initial = g.initial; lower = l; upper = u };
  idle = λ _. (refl, refl);
}

closed_Good : (n : DriverNode) → Good n → Good (record n { client = close n.client })
closed_Good n g = set_client n (close n.client) n.last_command_id g

connected_Good : (n : DriverNode) → Good n → Good (newly_connected n)
connected_Good n g = record {
  storing = g.storing;
  pending = g.pending;
  initial = g.initial;
  lower = omega arith;
  upper = g.initial;
}

module _ (what : Failure → String) where
  caught-Invariant :
      (now : ℕ) (o : Option (Result Failure (Unit {0}) × DriverNode)) (m : DriverNode)
      → Post Running Good o
      → caught what now o ≡ some m
      → Invariant m
  unfolding Post caught Running mark_disconnected
  caught-Invariant now none m p e = absurd (cc)
  caught-Invariant now (some (ok x, n)) m (g, o) e =
      subst Invariant (some-inj n m e) (record { good = g; idle = λ shut. absurd (cc) })
  caught-Invariant now (some (err f, n)) m g e =
      subst Invariant
        (some-inj (mark_disconnected now (what f) (record n { client = close n.client })) m e)
        (disconnected-Invariant now (what f) (record n { client = close n.client })
          (closed_Good n g) n.reconnect_delay g.lower g.upper)

  connection-Invariant :
      (r : Round) (o : Option (Result Failure (Unit {0}) × DriverNode)) (m : DriverNode)
      → Post Good Good o
      → connection_result what r o ≡ some m
      → Invariant m
  unfolding Post connection_result mark_disconnected
  connection-Invariant r none m g e = absurd (cc)
  connection-Invariant r (some (ok x, n)) m g e =
      caught-Invariant r.now (exchange_round r (newly_connected n)) m
        (exchange_round-Post r (newly_connected n) (connected_Good n g)) e
  connection-Invariant r (some (err f, n)) m g e =
      subst Invariant
        (some-inj
          (record (mark_disconnected r.now (what f) n) {
            reconnect_delay = min (n.reconnect_delay * 2) n.reconnect_max;
          })
          m e)
        (disconnected-Invariant r.now (what f) n g (min (n.reconnect_delay * 2) n.reconnect_max)
          (doubled g.lower g.initial) (omega arith))
    where
      doubled :
          n.reconnect_initial ≤ n.reconnect_delay
          → n.reconnect_initial ≤ n.reconnect_max
          → n.reconnect_initial ≤ min (n.reconnect_delay * 2) n.reconnect_max
      doubled a b = omega arith

  on_client-Post :
      (n : DriverNode) (o : Option (Result ModbusError (Unit {0}) × Client))
      → Good n
      → Post Good Good (put_client o n)
  unfolding Post put_client
  on_client-Post n none g = tt
  on_client-Post n (some (ok x, d)) g = set_client n d n.last_command_id g
  on_client-Post n (some (err e, d)) g = set_client n d n.last_command_id g

  worker_round-Invariant :
      (r : Round) (n m : DriverNode) → Invariant n → worker_round what r n ≡ some m → Invariant m
  unfolding worker_round on_client
  worker_round-Invariant r n m i e = by_open n.client.is_open e
    where
      by_open :
          (b : Bool)
          → (if b
              then caught what r.now (exchange_round r n)
              else connection_result what r (put_client (connect r.connect_answers n.client) n))
            ≡ some m
          → Invariant m
      by_open true e =
          caught-Invariant r.now (exchange_round r n) m (exchange_round-Post r n i.good) e
      by_open false e =
          connection-Invariant r (put_client (connect r.connect_answers n.client) n) m
            (on_client-Post n (connect r.connect_answers n.client) i.good) e

  Step-Invariant : (n m : DriverNode) → Step what n m → Invariant n → Invariant m
  Step-Invariant n _ (received c idle) i = receive_command-Invariant c n i
  Step-Invariant n _ stored i = store_command-Invariant n i
  Step-Invariant n m (polled r e) i = worker_round-Invariant r n m i e

  -- From a node that meets the invariant, whatever commands arrive and whatever the gripper and the
  -- system answer, in any order of the threads' steps: every command that waits to be written has a mode of at most 3 and
  -- an id other than 0, and asks for automatic release only where that is allowed; the reconnection
  -- delay stays between its parameters; and without a connection no command is accepted and the
  -- last command's id is 0.
  pub Reachable-Invariant :
      (start n : DriverNode) → Reachable what start n → Invariant start → Invariant n
  Reachable-Invariant start _ at_start i = i
  Reachable-Invariant start _ (step_to {n = n} {m = m} before s) i =
      Step-Invariant n m s (Reachable-Invariant start n before i)
