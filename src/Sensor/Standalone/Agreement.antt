-- ===== src/Sensor/Standalone/Agreement.antt =====
-- The standalone node against the hardware component: two routines for the same sensor.
use mathlib.Core.Path.{subst}
use ur5_ros.Common.{
  ℕ, ◌≡◌, ◌⊎◌, ◌∙◌, ap, sym, refl, Bool, true, false, List, [], ◌∷◌, ◌++◌, Option, some, none,
}
use ur5_ros.Common.Double.{ℤ}
use ur5_ros.Sensor.Machine.{Driver, Meets, rq_sensor_state}
use ur5_ros.Sensor.Hardware
use ur5_ros.Sensor.Hardware.{
  FtSensor, read_background, is_run, to_unsigned, put_result, take_message, store_readings,
}
use ur5_ros.Sensor.Standalone
use ur5_ros.Sensor.Standalone.{
  SensorNode, Wrench, update, put_machine, unless_connected, publish_new, publish_message, get_data,
}

-- The six forces of a wrench, in the order of the state interfaces.
unfoldable pub forces : {F : Type 0} → Wrench F → List F
forces w = w.force_x ∷ w.force_y ∷ w.force_z ∷ w.torque_x ∷ w.torque_y ∷ w.torque_z ∷ []

-- A component that is not in fake mode and a node, with the same driver and the same retries; the
-- one holds `readings`, and the other has published `published`.
pub record Same {F : Type 0} (published : List (Wrench F)) (readings : List F) (h : FtSensor F)
    (w : SensorNode F) : Type 0 where
  pub real : h.use_fake_mode ≡ false
  pub driver : w.driver ≡ h.driver
  pub retries : w.max_retries ≡ h.max_retries
  pub readings_lem : h.readings ≡ readings
  pub published_lem : w.published ≡ published

module _ {F : Type 0} (published : List (Wrench F)) (readings : List F) where
  -- Neither returns, or both do, with the same result.
  pub SameResult : Option (Bool × FtSensor F) → Option (Bool × SensorNode F) → Type 0
  SameResult none none = Unit {0}
  SameResult (some (b, h)) (some (c, w)) = (b ≡ c) × Same published readings h w
  SameResult none (some r) = ⊥
  SameResult (some r) none = ⊥

  unfoldable pub SameState : Option (FtSensor F) → Option (SensorNode F) → Type 0
  SameState none none = Unit {0}
  SameState (some h) (some w) = Same published readings h w
  SameState none (some w) = ⊥
  SameState (some h) none = ⊥

-- What a round has done on both sides: nothing, or six forces stored and published.
pub record OneMore {F : Type 0} (published : List (Wrench F)) (readings : List F) (h : FtSensor F)
    (w : SensorNode F) : Type 0 where
  pub wrench : Wrench F
  pub stored : h.readings ≡ forces wrench
  pub sent : w.published ≡ published ++ wrench ∷ []

pub record Agreed {F : Type 0} (published : List (Wrench F)) (readings : List F) (h : FtSensor F)
    (w : SensorNode F) : Type 0 where
  pub same : Same w.published h.readings h w
  pub round : ((h.readings ≡ readings) × (w.published ≡ published)) ⊎ OneMore published readings h w

module _ {F : Type 0} (quotient : ℤ → ℕ → F) (zero_value nan : F) (minus : F → F → F)
    (published : List (Wrench F)) (readings : List F) where
  put-SameResult :
      (h : FtSensor F) (w : SensorNode F) (o : Option (Bool × Driver F))
      → Same published readings h w
      → SameResult published readings
          (put_result quotient zero_value nan minus h o)
          (put_machine quotient w o)
  unfolding SameResult put_result put_machine
  put-SameResult h w none s = tt
  put-SameResult h w (some (r, d)) s = (
    refl,
    record {
      real = s.real;
      driver = refl;
      retries = s.retries;
      readings_lem = s.readings_lem;
      published_lem = s.published_lem;
    },
  )

  machine-SameResult :
      (m : Meets quotient) (h : FtSensor F) (w : SensorNode F)
      → Same published readings h w
      → SameResult published readings
          (Hardware.sensor_state_machine quotient zero_value nan minus m h)
          (Standalone.sensor_state_machine quotient m w)
  unfolding Hardware.sensor_state_machine Standalone.sensor_state_machine
  machine-SameResult m h w s =
      let call = λ (retries : ℤ) (d : Driver F).
        rq_sensor_state quotient (record m { max_retries = to_unsigned retries }) d in
      let same : call h.max_retries h.driver ≡ call w.max_retries w.driver =
        ap (λ (z : ℤ). call z h.driver) (sym s.retries) ∙ ap (call w.max_retries) (sym s.driver) in
      subst
        (λ (o : Option (Bool × Driver F)).
          SameResult published readings
            (put_result quotient zero_value nan minus h (call h.max_retries h.driver))
            (put_machine quotient w o))
        same (put-SameResult h w (call h.max_retries h.driver) s)

  -- A wait that keeps both sides the same is entered by both or by none.
  after_wait-SameState :
      (f : FtSensor F → Option (FtSensor F)) (g : SensorNode F → Option (SensorNode F))
      → ((h : FtSensor F) (w : SensorNode F)
          → Same published readings h w
          → SameState published readings (f h) (g w))
      → (o : Option (Bool × FtSensor F)) (p : Option (Bool × SensorNode F))
      → SameResult published readings o p
      → SameState published readings
          (Hardware.after_wait quotient zero_value nan minus f o)
          (unless_connected quotient g p)
  unfolding SameResult SameState Hardware.after_wait unless_connected
  after_wait-SameState f g k none none s = tt
  after_wait-SameState f g k none (some p) s = absurd s
  after_wait-SameState f g k (some o) none s = absurd s
  after_wait-SameState f g k (some (true, h)) (some (true, w)) s = s.1
  after_wait-SameState f g k (some (false, h)) (some (false, w)) s = k h w s.1
  after_wait-SameState f g k (some (true, h)) (some (false, w)) s = absurd (cc s.0)
  after_wait-SameState f g k (some (false, h)) (some (true, w)) s = absurd (cc s.0)

  wait-SameState :
      (rounds : List (Bool × Meets quotient)) (h : FtSensor F) (w : SensorNode F)
      → Same published readings h w
      → SameState published readings
          (Hardware.wait_for_other_connection quotient zero_value nan minus rounds h)
          (Standalone.wait_for_other_connection quotient rounds w)
  unfolding SameState Hardware.wait_for_other_connection Standalone.wait_for_other_connection
  wait-SameState [] h w s = tt
  wait-SameState ((false, m) ∷ rounds) h w s = s
  wait-SameState ((true, m) ∷ rounds) h w s =
      after_wait-SameState
        (λ g. Hardware.wait_for_other_connection quotient zero_value nan minus rounds g)
        (λ v. Standalone.wait_for_other_connection quotient rounds v)
        (λ g v. wait-SameState rounds g v) _ _ (machine-SameResult m h w s)

  pub run_machine-SameState :
      (m : Meets quotient) (rounds : List (Bool × Meets quotient)) (h : FtSensor F)
      (w : SensorNode F)
      → Same published readings h w
      → SameState published readings
          (Hardware.run_machine quotient zero_value nan minus m rounds h)
          (Standalone.run_machine quotient m rounds w)
  unfolding Hardware.run_machine Standalone.run_machine
  run_machine-SameState m rounds h w s =
      after_wait-SameState
        (λ g. Hardware.wait_for_other_connection quotient zero_value nan minus rounds g)
        (λ v. Standalone.wait_for_other_connection quotient rounds v)
        (λ g v. wait-SameState rounds g v) _ _ (machine-SameResult m h w s)
