-- ===== src/Sensor/Hardware/Activation.antt =====
-- The states of the sensor's machine that an activation of the hardware component passes through.
use mathlib.Core.Path.{subst}
use ur5_ros.Common.{
  ℕ, ◌≡◌, ◌∙◌, refl, sym, Bool, true, false, List, [], ◌∷◌, All, Option, some, none, if◌then◌else◌,
  by_false, replicate, ap,
}
use ur5_ros.Common.Double.{ℤ}
use ur5_ros.Sensor.Machine.{State, init, read_info, start_stream, run, Driver, Meets}
use ur5_ros.Sensor.Machine.States.{
  Next, rq_sensor_state-Next, not_connected, now_connected, info_read, started, running, stopped,
}
use ur5_ros.Sensor.Hardware.{
  FtSensor, put_result, sensor_state_machine, after_wait, wait_for_other_connection, run_machine,
  then_run, on_activate, activated,
}

-- A failed call leaves the state, and the calls that succeed go through the states in their order.
failed_same : {s t : State} {b : Bool} → b ≡ false → Next s b t → t ≡ s
failed_same e not_connected = refl
failed_same e now_connected = absurd (cc)
failed_same e info_read = absurd (cc)
failed_same e started = absurd (cc)
failed_same e running = absurd (cc)
failed_same e stopped = absurd (cc)

from_init : {s t : State} {b : Bool} → s ≡ init → b ≡ true → Next s b t → t ≡ read_info
from_init e f not_connected = absurd (cc)
from_init e f now_connected = refl
from_init e f info_read = absurd (cc)
from_init e f started = absurd (cc)
from_init e f running = absurd (cc)
from_init e f stopped = absurd (cc)

from_read_info : {s t : State} {b : Bool} → s ≡ read_info → Next s b t → t ≡ start_stream
from_read_info e not_connected = absurd (cc)
from_read_info e now_connected = absurd (cc)
from_read_info e info_read = refl
from_read_info e started = absurd (cc)
from_read_info e running = absurd (cc)
from_read_info e stopped = absurd (cc)

from_start_stream : {s t : State} {b : Bool} → s ≡ start_stream → Next s b t → t ≡ run
from_start_stream e not_connected = absurd (cc)
from_start_stream e now_connected = absurd (cc)
from_start_stream e info_read = absurd (cc)
from_start_stream e started = refl
from_start_stream e running = absurd (cc)
from_start_stream e stopped = absurd (cc)

module _ {F : Type 0} (quotient : ℤ → ℕ → F) (zero_value nan : F) (minus : F → F → F) where
  -- The rounds of a wait in which rclcpp::ok() holds.
  abbrev pub Running : List (Bool × Meets quotient) → Type 0
  Running rounds = All (λ (r : Bool × Meets quotient). r.0 ≡ true) rounds

  put_result-Next :
      (h g : FtSensor F) (b : Bool) (o : Option (Bool × Driver F))
      → ((c : Bool) (d : Driver F)
          → o ≡ some (c, d)
          → Next h.driver.current_state c d.current_state)
      → put_result quotient zero_value nan minus h o ≡ some (b, g)
      → Next h.driver.current_state b g.driver.current_state
  unfolding put_result
  put_result-Next h g b none all e = absurd (cc)
  put_result-Next h g b (some (c, d)) all e =
      let result : c ≡ b = cc in
      let state : record h { driver = d } ≡ g = cc in
      subst (λ (x : FtSensor F). Next h.driver.current_state b x.driver.current_state) state
        (subst (λ (x : Bool). Next h.driver.current_state x d.current_state) result (all c d refl))

  machine-Next :
      (m : Meets quotient) (h g : FtSensor F) (b : Bool)
      → sensor_state_machine quotient zero_value nan minus m h ≡ some (b, g)
      → Next h.driver.current_state b g.driver.current_state
  unfolding sensor_state_machine
  machine-Next m h g b e =
      put_result-Next h g b _ (λ c d q. rq_sensor_state-Next quotient _ h.driver d c q) e

  -- What follows a call, where the wait after a failed one succeeds from the same state.
  after_wait-Next :
      (next : FtSensor F → Option (FtSensor F)) (s : State) (g : FtSensor F)
      (o : Option (Bool × FtSensor F))
      → ((b : Bool) (k : FtSensor F) → o ≡ some (b, k) → Next s b k.driver.current_state)
      → ((k : FtSensor F)
          → next k ≡ some g
          → Next k.driver.current_state true g.driver.current_state)
      → after_wait quotient zero_value nan minus next o ≡ some g
      → Next s true g.driver.current_state
  unfolding after_wait
  after_wait-Next next s g none call later e = absurd (cc)
  after_wait-Next next s g (some (true, k)) call later e =
      let same : k ≡ g = cc in
      subst (λ (x : FtSensor F). Next s true x.driver.current_state) same (call true k refl)
  after_wait-Next next s g (some (false, k)) call later e =
      subst (λ (t : State). Next t true g.driver.current_state)
        (failed_same refl (call false k refl)) (later k e)

  wait-Next :
      (rounds : List (Bool × Meets quotient)) (h g : FtSensor F)
      → Running rounds
      → wait_for_other_connection quotient zero_value nan minus rounds h ≡ some g
      → Next h.driver.current_state true g.driver.current_state
  unfolding wait_for_other_connection
  wait-Next [] h g r e = absurd (cc)
  wait-Next ((false, m) ∷ rounds) h g r e = absurd (cc r.0)
  wait-Next ((true, m) ∷ rounds) h g r e =
      after_wait-Next (λ k. wait_for_other_connection quotient zero_value nan minus rounds k)
        h.driver.current_state g (sensor_state_machine quotient zero_value nan minus m h)
        (λ b k q. machine-Next m h k b q) (λ k q. wait-Next rounds k g r.1 q) e

  run_machine-Next :
      (m : Meets quotient) (rounds : List (Bool × Meets quotient)) (h g : FtSensor F)
      → Running rounds
      → run_machine quotient zero_value nan minus m rounds h ≡ some g
      → Next h.driver.current_state true g.driver.current_state
  unfolding run_machine
  run_machine-Next m rounds h g r e =
      after_wait-Next (λ k. wait_for_other_connection quotient zero_value nan minus rounds k)
        h.driver.current_state g (sensor_state_machine quotient zero_value nan minus m h)
        (λ b k q. machine-Next m h k b q) (λ k q. wait-Next rounds k g r q) e

  then_run-before :
      (m : Meets quotient) (rounds : List (Bool × Meets quotient)) (o : Option (FtSensor F))
      (g : FtSensor F)
      → then_run quotient zero_value nan minus m rounds o ≡ some g
      → (h : FtSensor F) × (o ≡ some h)
        × (run_machine quotient zero_value nan minus m rounds h ≡ some g)
  unfolding then_run
  then_run-before m rounds none g e = absurd (cc)
  then_run-before m rounds (some h) g e = (h, refl, e)

  activated-before :
      (o : Option (FtSensor F)) (g : FtSensor F)
      → activated quotient zero_value nan minus o ≡ some g
      → (h : FtSensor F) × (o ≡ some h) × (g.driver ≡ h.driver) × (g.running ≡ true)
  unfolding activated
  activated-before none g e = absurd (cc)
  activated-before (some h) g e =
      let same : record h {
        sensor_states = replicate 6 nan;
        readings = replicate 6 nan;
        running = true;
      }
          ≡ g =
        cc in
      (
        h,
        refl,
        ap (λ (x : FtSensor F). x.driver) (sym same),
        ap (λ (x : FtSensor F). x.running) (sym same),
      )

  -- An activation of a real sensor from the state init that returns, while rclcpp::ok() holds in the
  -- rounds of its waits, leaves the machine in the state run, with the thread started.
  pub on_activate-run :
      (a b c : Meets quotient) (as_ bs cs : List (Bool × Meets quotient)) (h g : FtSensor F)
      → h.use_fake_mode ≡ false
      → h.driver.current_state ≡ init
      → Running as_
      → Running bs
      → Running cs
      → on_activate quotient zero_value nan minus (a, as_) (b, bs) (c, cs) h ≡ some g
      → (g.driver.current_state ≡ run) × (g.running ≡ true)
  unfolding on_activate
  on_activate-run a b c as_ bs cs h g real start ra rb rc e =
      let first = run_machine quotient zero_value nan minus a as_ h in
      let second = then_run quotient zero_value nan minus b bs first in
      let third = then_run quotient zero_value nan minus c cs second in
      let (k, fake, kept, on) = activated-before (if h.use_fake_mode then some h else third) g e in
      let (j, two, to_run) =
        then_run-before c cs second k (sym (by_false h.use_fake_mode (some h) third real) ∙ fake) in
      let (i, one, to_start) = then_run-before b bs first j two in
      let informed = from_init start refl (run_machine-Next a as_ h i ra one) in
      let starting = from_read_info informed (run_machine-Next b bs i j rb to_start) in
      let streaming = from_start_stream starting (run_machine-Next c cs j k rc to_run) in
      (ap (λ (d : Driver F). d.current_state) kept ∙ streaming, on)
