-- ===== src/Sensor/Hardware/Exposed.antt =====
-- The forces that the hardware component hands to ros2_control between its activations.
use ur5_ros.Sensor.Listen.{got_new_message, get_received_data}
use mathlib.Core.Path.{subst}
use ur5_ros.Common.Double.{ℤ}
use ur5_ros.Common.{
  ◌≡◌, ◌⊎◌, inl, inr, Bool, true, false, List, [], ◌∷◌, replicate, Option, some, none, refl, ℕ,
  if◌then◌else◌, leb, ap, sym, by_true, ◌∙◌, by_false,
}
use ur5_ros.Sensor.Machine.{Driver, Meets}
use ur5_ros.Sensor.Commands.{state_got_new_message}
use ur5_ros.Sensor.Hardware.{
  FtSensor, is_run, run_machine, read_background, on_activate, on_deactivate, read, set_zero,
  store_readings, take_message, activated, received, get_received_data,
}
use ur5_ros.Sensor.Hardware.Snapshots.{
  Snapshot, Exposed, message, nothing, put_driver-Exposed, older-Exposed, run_machine-Exposed,
}

module _ {F : Type 0} (quotient : ℤ → ℕ → F) (zero_value nan : F) (minus : F → F → F) where
  -- The component from an activation on, with the drivers that the state machine left in the rounds of
  -- the background thread, before a message was taken, the last first. A round of the thread is one step, and so is a request of the service.
  pub data Reachable : List (Driver F) → FtSensor F → Type 0 where
    activating :
        (a b c : Meets quotient × List (Bool × Meets quotient)) (h g : FtSensor F)
        → on_activate quotient zero_value nan minus a b c h ≡ some g
        → Reachable [] g
    background :
        {log : List (Driver F)} (m : Meets quotient) (rounds : List (Bool × Meets quotient))
        (h k g : FtSensor F)
        → Reachable log h
        → h.use_fake_mode ≡ false
        → run_machine quotient zero_value nan minus m rounds h ≡ some k
        → read_background quotient zero_value nan minus m rounds h ≡ some g
        → Reachable (k.driver ∷ log) g
    fake_background :
        {log : List (Driver F)} (m : Meets quotient) (rounds : List (Bool × Meets quotient))
        (h g : FtSensor F)
        → Reachable log h
        → h.use_fake_mode ≡ true
        → read_background quotient zero_value nan minus m rounds h ≡ some g
        → Reachable log g
    reading :
        {log : List (Driver F)} (h : FtSensor F)
        → Reachable log h
        → Reachable log (read quotient zero_value nan minus h)
    zeroing :
        {log : List (Driver F)} (h : FtSensor F)
        → Reachable log h
        → Reachable log (set_zero quotient zero_value nan minus h)
    deactivating :
        {log : List (Driver F)} (h : FtSensor F)
        → Reachable log h
        → Reachable log (on_deactivate quotient zero_value nan minus h)

  -- The round that took the component to k, whose message is new or not.
  store_readings-Exposed :
      {log : List (Driver F)} (k : FtSensor F) (new : Bool)
      → is_run k.driver.current_state ≡ true
      → k.driver.sensor.new_message ≡ new
      → Exposed quotient zero_value nan minus log k
      → Exposed quotient zero_value nan minus
          (k.driver ∷ log)
          (store_readings quotient zero_value nan minus (new, (state_got_new_message k.driver).1) k)
  unfolding store_readings state_got_new_message got_new_message received get_received_data leb
  store_readings-Exposed k false r e x =
      put_driver-Exposed quotient zero_value nan minus k _
        (older-Exposed quotient zero_value nan minus k k.driver x)
  store_readings-Exposed k true r e x = record {
    readings = message k.driver r e;
    states = (older-Exposed quotient zero_value nan minus k k.driver x).states;
  }

  in_state :
      {log : List (Driver F)} (k : FtSensor F) (b : Bool)
      → is_run k.driver.current_state ≡ b
      → Exposed quotient zero_value nan minus log k
      → Exposed quotient zero_value nan minus (k.driver ∷ log) (
          if b
          then store_readings quotient zero_value nan minus (state_got_new_message k.driver) k
          else k)
  unfolding state_got_new_message got_new_message
  in_state k false r x = older-Exposed quotient zero_value nan minus k k.driver x
  in_state k true r x = store_readings-Exposed k k.driver.sensor.new_message r refl x

  background-Exposed :
      {log : List (Driver F)} (m : Meets quotient) (rounds : List (Bool × Meets quotient))
      (h k g : FtSensor F)
      → Exposed quotient zero_value nan minus log h
      → h.use_fake_mode ≡ false
      → run_machine quotient zero_value nan minus m rounds h ≡ some k
      → read_background quotient zero_value nan minus m rounds h ≡ some g
      → Exposed quotient zero_value nan minus (k.driver ∷ log) g
  unfolding read_background take_message
  background-Exposed {log = log} m rounds h k g x real run e =
      let result : ◌≡◌ {A = Option (FtSensor F)}
          (some (
            if is_run k.driver.current_state
            then store_readings quotient zero_value nan minus (state_got_new_message k.driver) k
            else k))
          (some g) =
        ap (take_message quotient zero_value nan minus) (sym run)
        ∙ sym (
            by_false h.use_fake_mode (some h)
              (take_message quotient zero_value nan minus
                (run_machine quotient zero_value nan minus m rounds h))
              real)
        ∙ e in
      let same : (if is_run k.driver.current_state
            then store_readings quotient zero_value nan minus (state_got_new_message k.driver) k
            else k)
          ≡ g =
        cc in
      subst (λ (z : FtSensor F). Exposed quotient zero_value nan minus (k.driver ∷ log) z) same
        (in_state k (is_run k.driver.current_state) refl
          (run_machine-Exposed quotient zero_value nan minus m rounds h k x run))

  fake_background-Exposed :
      {log : List (Driver F)} (m : Meets quotient) (rounds : List (Bool × Meets quotient))
      (h g : FtSensor F)
      → Exposed quotient zero_value nan minus log h
      → h.use_fake_mode ≡ true
      → read_background quotient zero_value nan minus m rounds h ≡ some g
      → Exposed quotient zero_value nan minus log g
  unfolding read_background
  fake_background-Exposed {log = log} m rounds h g x fake e =
      let result : ◌≡◌ {A = Option (FtSensor F)} (some h) (some g) =
        sym (
          by_true h.use_fake_mode (some h)
            (take_message quotient zero_value nan minus
              (run_machine quotient zero_value nan minus m rounds h))
            fake)
        ∙ e in
      let same : h ≡ g = cc in
      subst (λ (z : FtSensor F). Exposed quotient zero_value nan minus log z) same x

  activated-Exposed :
      (o : Option (FtSensor F)) (g : FtSensor F)
      → activated quotient zero_value nan minus o ≡ some g
      → Exposed quotient zero_value nan minus [] g
  unfolding activated
  activated-Exposed none g e = absurd (cc)
  activated-Exposed (some h) g e =
      let same : record h {
        sensor_states = replicate 6 nan;
        readings = replicate 6 nan;
        running = true;
      }
          ≡ g =
        cc in
      subst (λ (z : FtSensor F). Exposed quotient zero_value nan minus [] z) same
        (record { readings = nothing; states = inl nothing })

  read-Exposed :
      {log : List (Driver F)} (h : FtSensor F)
      → Exposed quotient zero_value nan minus log h
      → Exposed quotient zero_value nan minus log (read quotient zero_value nan minus h)
  unfolding read
  read-Exposed {log = log} h x = record {
    readings = x.readings;
    states = by_mode h.use_fake_mode refl;
  }
    where
      by_mode :
          (b : Bool)
          → h.use_fake_mode ≡ b
          → let states = if b then replicate 6 zero_value else h.readings in
            Snapshot quotient zero_value nan minus log states
            ⊎ (h.use_fake_mode ≡ true × states ≡ replicate 6 zero_value)
      by_mode true e = inr (e, refl)
      by_mode false e = inl x.readings

  -- From an activation on, in any order of rounds of the thread, reads, requests of zero and
  -- deactivations, the forces handed to ros2_control are six NaN, or the six efforts less their offsets
  -- of one driver that the state machine has left in a round of the thread since then, in the state
  -- run and with a new message, or in fake mode six zeros.
  pub Reachable-Exposed :
      (log : List (Driver F)) (h : FtSensor F)
      → Reachable log h
      → Exposed quotient zero_value nan minus log h
  unfolding on_activate set_zero on_deactivate
  Reachable-Exposed _ _ (activating (a, as_) (b, bs) (c, cs) h g e) = activated-Exposed _ g e
  Reachable-Exposed _ _ (background m rounds h k g r real run e) =
      background-Exposed m rounds h k g (Reachable-Exposed _ h r) real run e
  Reachable-Exposed _ _ (fake_background m rounds h g r fake e) =
      fake_background-Exposed m rounds h g (Reachable-Exposed _ h r) fake e
  Reachable-Exposed _ _ (reading h r) = read-Exposed h (Reachable-Exposed _ h r)
  Reachable-Exposed _ _ (zeroing h r) =
      put_driver-Exposed quotient zero_value nan minus h _ (Reachable-Exposed _ h r)
  Reachable-Exposed _ _ (deactivating h r) =
      let x = Reachable-Exposed _ h r in record { readings = x.readings; states = x.states }
