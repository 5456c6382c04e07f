-- ===== src/Sensor/Hardware/Snapshots.antt =====
-- The forces of the hardware component, kept by the calls of the sensor's state machine.
use mathlib.Core.Path.{subst}
use ur5_ros.Common.Double.{ℤ}
use ur5_ros.Common.{
  ◌≡◌, ◌⊎◌, inl, inr, Bool, true, false, List, [], ◌∷◌, replicate, Option, some, none, refl, ℕ,
  get_or,
}
use ur5_ros.Sensor.Machine.{Driver, Meets}
use ur5_ros.Sensor.Hardware.{
  FtSensor, is_run, run_machine, ℤ, put_result, after_wait, wait_for_other_connection,
  sensor_state_machine,
}

module _ {F : Type 0} (quotient : ℤ → ℕ → F) (zero_value nan : F) (minus : F → F → F) where
  -- An effort of the last message, less its offset.
  abbrev pub force : Driver F → ℕ → F
  force d i =
      minus (get_or d.sensor.received_data i zero_value)
        (get_or d.sensor.received_data_offset i zero_value)

  abbrev pub six : Driver F → List F
  six d = force d 0 ∷ force d 1 ∷ force d 2 ∷ force d 3 ∷ force d 4 ∷ force d 5 ∷ []

  -- Six NaN, or the forces of a driver that the state machine left in the state run with a message
  -- that had not been taken.
  pub data Snapshot : List (Driver F) → List F → Type 0 where
    nothing : {log : List (Driver F)} → Snapshot log (replicate 6 nan)
    message :
        {log : List (Driver F)} (d : Driver F)
        → is_run d.current_state ≡ true
        → d.sensor.new_message ≡ true
        → Snapshot (d ∷ log) (six d)
    older :
        {log : List (Driver F)} {values : List F} (d : Driver F)
        → Snapshot log values
        → Snapshot (d ∷ log) values

  pub record Exposed (log : List (Driver F)) (h : FtSensor F) : Type 0 where
    pub readings : Snapshot log h.readings
    pub states :
        Snapshot log h.sensor_states
        ⊎ (h.use_fake_mode ≡ true × h.sensor_states ≡ replicate 6 zero_value)

  pub put_driver-Exposed :
      {log : List (Driver F)} (h : FtSensor F) (d : Driver F)
      → Exposed log h
      → Exposed log (record h { driver = d })
  put_driver-Exposed h d x = record { readings = x.readings; states = x.states }

  pub older-Exposed :
      {log : List (Driver F)} (h : FtSensor F) (d : Driver F) → Exposed log h → Exposed (d ∷ log) h
  older-Exposed {log = log} h d x = record {
    readings = older d x.readings;
    states = either x.states;
  }
    where
      either :
          Snapshot log h.sensor_states
            ⊎ (h.use_fake_mode ≡ true × h.sensor_states ≡ replicate 6 zero_value)
          → Snapshot (d ∷ log) h.sensor_states
            ⊎ (h.use_fake_mode ≡ true × h.sensor_states ≡ replicate 6 zero_value)
      either (inl s) = inl (older d s)
      either (inr z) = inr z

  put_result-Exposed :
      {log : List (Driver F)} (h g : FtSensor F) (o : Option (Bool × Driver F)) (r : Bool)
      → put_result quotient zero_value nan minus h o ≡ some (r, g)
      → Exposed log h
      → Exposed log g
  unfolding put_result
  put_result-Exposed h g none r e x = absurd (cc)
  put_result-Exposed {log = log} h g (some (q, d)) r e x =
      let same : record h { driver = d } ≡ g = cc in
      subst (λ (z : FtSensor F). Exposed log z) same (put_driver-Exposed h d x)

  -- The wait on a result of the machine.
  after_wait-Exposed :
      {log : List (Driver F)} (next : FtSensor F → Option (FtSensor F)) (g : FtSensor F)
      (o : Option (Bool × FtSensor F))
      → ((k : FtSensor F) → Exposed log k → next k ≡ some g → Exposed log g)
      → ((r : Bool) (k : FtSensor F) → o ≡ some (r, k) → Exposed log k)
      → after_wait quotient zero_value nan minus next o ≡ some g
      → Exposed log g
  unfolding after_wait
  after_wait-Exposed next g none later x e = absurd (cc)
  after_wait-Exposed {log = log} next g (some (true, k)) later x e =
      let same : k ≡ g = cc in subst (λ (z : FtSensor F). Exposed log z) same (x true k refl)
  after_wait-Exposed next g (some (false, k)) later x e = later k (x false k refl) e

  wait-Exposed :
      {log : List (Driver F)} (rounds : List (Bool × Meets quotient)) (h g : FtSensor F)
      → Exposed log h
      → wait_for_other_connection quotient zero_value nan minus rounds h ≡ some g
      → Exposed log g
  unfolding wait_for_other_connection sensor_state_machine
  wait-Exposed [] h g x e = absurd (cc)
  wait-Exposed {log = log} ((false, m) ∷ rounds) h g x e =
      let same : h ≡ g = cc in subst (λ (z : FtSensor F). Exposed log z) same x
  wait-Exposed ((true, m) ∷ rounds) h g x e =
      after_wait-Exposed _ g (sensor_state_machine quotient zero_value nan minus m h)
        (λ k y q. wait-Exposed rounds k g y q) (λ r k q. put_result-Exposed h k _ r q x) e

  pub run_machine-Exposed :
      {log : List (Driver F)} (m : Meets quotient) (rounds : List (Bool × Meets quotient))
      (h g : FtSensor F)
      → Exposed log h
      → run_machine quotient zero_value nan minus m rounds h ≡ some g
      → Exposed log g
  unfolding run_machine sensor_state_machine
  run_machine-Exposed m rounds h g x e =
      after_wait-Exposed _ g (sensor_state_machine quotient zero_value nan minus m h)
        (λ k y q. wait-Exposed rounds k g y q) (λ r k q. put_result-Exposed h k _ r q x) e
