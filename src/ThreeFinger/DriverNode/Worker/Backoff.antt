-- ===== src/ThreeFinger/DriverNode/Worker/Backoff.antt =====
-- The sleeps of the worker while no connection succeeds.
use mathlib.Core.Path.{subst}
use ur5_ros.ThreeFinger.DriverNode.Parameters.{Settings}
use Prim.Native.String.{String}
use native.Mathlib.Decide.{dec_le}
use native.Mathlib.Nat.{le-mul_of_pos_right, mul-le-mul_right, one-le-pow, mul_assoc, pow-suc}
use ur5_ros.Common.{
  by_false, ℕ, zero, suc, ◌*◌, ◌^◌, ◌≤◌, ◌<◌, min, ◌≡◌, refl, true, false, List, [], ◌∷◌, ◌++◌,
  some, All, length, get_or, arith, ◌∙◌, ap,
}
use ur5_ros.Common.Result.{err}
use ur5_ros.ThreeFinger.ModbusTcp.System.{Client, ModbusError}
use ur5_ros.ThreeFinger.ModbusTcp.Connect.{connect, connect-OpenIfOk, OpenIfOk}
use ur5_ros.ThreeFinger.DriverNode.{
  DriverNode, Failure, String, connection_result, on_client, put_client, mark_disconnected,
  publish_status, modbus, exchange_round,
}
use ur5_ros.ThreeFinger.DriverNode.Worker.{
  Turn, turn, run_loop, Settings, turn_connect, finish, attach, after_turn, sleep_for,
  turn_exchange, add_sleep,
}

-- Each delay is the double of the one before, up to the maximum.
doubling : ℕ → ℕ → ℕ → List ℕ
doubling zero delay maximum = []
doubling (suc k) delay maximum = delay ∷ doubling k (min (delay * 2) maximum) maximum

-- A product by a number that is not 0 keeps the side of the minimum.
scaled_min : (a m p : ℕ) → 1 ≤ p → min (min a m * p) m ≡ min (a * p) m
scaled_min a m p h = elim (dec_le a m) [
  | yes l ↦ let low : min a m ≡ a = omega arith in rw low
  | no l ↦
      let high : min a m ≡ m = omega arith in
      let x : m ≤ m * p = le-mul_of_pos_right m (omega arith) in
      let y : m * p ≤ a * p = mul-le-mul_right p (omega arith) in rw high (omega arith)
]

get_or-doubling : (k d m i : ℕ) → d ≤ m → i < k → get_or (doubling k d m) i 0 ≡ min (d * 2 ^ i) m
unfolding doubling
get_or-doubling zero d m i h lt = absurd (omega arith)
get_or-doubling (suc k) d m zero h lt = omega arith
get_or-doubling (suc k) d m (suc i) h lt =
    let rest = get_or-doubling k (min (d * 2) m) m i (omega arith) (omega arith) in
    let scaled = scaled_min (d * 2) m (2 ^ i) (one-le-pow i 2 (omega arith)) in
    let next : 2 * 2 ^ i ≡ 2 ^ suc i = omega (arith, pow-suc 2 i) in
    let doubled : d * 2 * 2 ^ i ≡ d * 2 ^ suc i =
      mul_assoc d 2 (2 ^ i) ∙ ap (λ (t : ℕ). d * t) next in
    rest ∙ scaled ∙ ap (λ (t : ℕ). min t m) doubled

length-doubling : (k d m : ℕ) → length (doubling k d m) ≡ k
unfolding doubling
length-doubling zero d m = refl
length-doubling (suc k) d m = omega (arith, length-doubling k (min (d * 2) m) m)

-- A turn whose connection fails for every client without one, and whose sleep is not interrupted.
pub record Fails (t : Turn) : Type 0 where
  pub running : t.stop_requested ≡ false
  pub undisturbed : t.slept_through ≡ true
  pub refused :
      (c : Client)
      → c.is_open ≡ false
      → (e : ModbusError) × (d : Client) × (connect t.round.connect_answers c ≡ some (err e, d))

-- What such a turn leaves.
record Delayed (n m : DriverNode) : Type 0 where
  shut : m.client.is_open ≡ false
  doubled : m.reconnect_delay ≡ min (n.reconnect_delay * 2) n.reconnect_max
  bounded : m.reconnect_max ≡ n.reconnect_max

module _ (what : Failure → String) (s : Settings) where
  turn-Delayed :
      (t : Turn) (n : DriverNode)
      → Fails t
      → n.client.is_open ≡ false
      → (m : DriverNode) × (turn what s t n
          ≡ some (record { slept = some n.reconnect_delay; goes_on = true }, m))
        × Delayed n m
  unfolding turn turn_connect attach sleep_for connection_result on_client put_client
      mark_disconnected publish_status OpenIfOk
  turn-Delayed t n f shut =
      let (e, d, refused) = f.refused n.client shut in
      (
        record (mark_disconnected t.round.now (what (modbus e)) (record n { client = d })) {
          reconnect_delay = min (n.reconnect_delay * 2) n.reconnect_max;
        },
        by_false n.client.is_open (turn_exchange what s t (exchange_round t.round n))
              (turn_connect what s t (on_client (connect t.round.connect_answers) n)) shut
            ∙ rw (refused, f.undisturbed),
        record {
          shut = subst OpenIfOk refused (connect-OpenIfOk t.round.connect_answers n.client);
          doubled = refl;
          bounded = refl;
        },
      )

  run_loop-doubling :
      (turns : List Turn) (last : Turn) (n : DriverNode)
      → All Fails turns
      → last.stop_requested ≡ true
      → n.client.is_open ≡ false
      → (m : DriverNode) × (run_loop what s (turns ++ last ∷ []) n
          ≡ some (doubling (length turns) n.reconnect_delay n.reconnect_max, m))
  unfolding run_loop doubling after_turn add_sleep
  run_loop-doubling [] last n f stop shut = (finish n, rw stop)
  run_loop-doubling (t ∷ turns) last n f stop shut =
      let (m, e, d) = turn-Delayed t n f.0 shut in
      let (final, rest) = run_loop-doubling turns last m f.1 stop d.shut in
      (
        final,
        by_false t.stop_requested (some ([], finish n))
              (after_turn what s (λ k. run_loop what s (turns ++ last ∷ []) k) (turn what s t n))
              f.0.running
            ∙ rw (e, rest, d.doubled, d.bounded),
      )

  -- While no connection succeeds and no sleep is interrupted, and until a turn finds that the loop is
  -- to stop, the worker sleeps once in each turn; the sleep in turn i, counted from 0, takes the
  -- smaller of the maximum and of 2 ^ i times the delay at the start; and the loop returns.
  pub run_loop-backs_off :
      (turns : List Turn) (last : Turn) (n : DriverNode)
      → All Fails turns
      → last.stop_requested ≡ true
      → n.client.is_open ≡ false
      → n.reconnect_delay ≤ n.reconnect_max
      → (sleeps : List ℕ) × (m : DriverNode) × (run_loop what s (turns ++ last ∷ []) n
          ≡ some (sleeps, m))
        × (length sleeps ≡ length turns)
        × ((i : ℕ)
            → i < length turns
            → get_or sleeps i 0 ≡ min (n.reconnect_delay * 2 ^ i) n.reconnect_max)
  run_loop-backs_off turns last n f stop shut h =
      let (m, e) = run_loop-doubling turns last n f stop shut in
      (
        doubling (length turns) n.reconnect_delay n.reconnect_max,
        m,
        e,
        length-doubling (length turns) n.reconnect_delay n.reconnect_max,
        λ i lt. get_or-doubling (length turns) n.reconnect_delay n.reconnect_max i h lt,
      )
