-- ===== src/Sensor/Standalone/Rounds.antt =====
-- A round of the hardware component's thread against a timer callback of the standalone node.
use ur5_ros.Sensor.Listen.{got_new_message, get_received_data}
use mathlib.Core.Path.{subst}
use ur5_ros.Common.{
  ℕ, ◌≡◌, ap, sym, inl, inr, refl, Bool, true, false, List, Option, some, none, if◌then◌else◌, ◌++◌,
  ◌∷◌, [], by_false,
}
use ur5_ros.Common.Double.{ℤ}
use ur5_ros.Sensor.Machine.{Driver, Meets}
use ur5_ros.Sensor.Commands.{state_got_new_message}
use ur5_ros.Sensor.Hardware
use ur5_ros.Sensor.Hardware.{
  FtSensor, read_background, is_run, take_message, store_readings, received,
}
use ur5_ros.Sensor.Standalone
use ur5_ros.Sensor.Standalone.{SensorNode, Wrench, update, publish_new, publish_message, get_data}
use ur5_ros.Sensor.Standalone.Agreement.{Same, Agreed, SameState, forces, run_machine-SameState}

module _ {F : Type 0} (published : List (Wrench F)) (readings : List F) where
  -- Neither round returns, or both do and agree.
  pub Agrees : Option (FtSensor F) → Option (SensorNode F) → Type 0
  Agrees none none = Unit {0}
  Agrees (some h) (some w) = Agreed published readings h w
  Agrees none (some w) = ⊥
  Agrees (some h) none = ⊥

module _ {F : Type 0} (quotient : ℤ → ℕ → F) (zero_value nan : F) (minus : F → F → F)
    (published : List (Wrench F)) (readings : List F) (now : ℕ) where
  nothing-Agreed :
      (h : FtSensor F) (w : SensorNode F) (d : Driver F)
      → Same published readings h w
      → Agreed published readings (record h { driver = d }) (record w { driver = d })
  nothing-Agreed h w d s = record {
    same = record {
      real = s.real;
      driver = refl;
      retries = s.retries;
      readings_lem = refl;
      published_lem = refl;
    };
    round = inl (s.readings_lem, s.published_lem);
  }

  message-Agreed :
      (h : FtSensor F) (w : SensorNode F) (b new : Bool)
      → Same published readings h w
      → let p : Bool × Driver F = (new, (state_got_new_message h.driver).1) in
        Agreed published readings
          (if b then store_readings quotient zero_value nan minus p h else h)
          (if b
            then publish_message quotient zero_value minus now p (record w { driver = h.driver })
            else record w { driver = h.driver })
  unfolding store_readings publish_message received get_data forces state_got_new_message
      got_new_message get_received_data
  message-Agreed h w false new s = nothing-Agreed h w h.driver s
  message-Agreed h w true false s = nothing-Agreed h w (state_got_new_message h.driver).1 s
  message-Agreed h w true true s =
      let wrench = get_data quotient zero_value minus now w.frame_id h.driver in
      record {
        same = record {
          real = s.real;
          driver = refl;
          retries = s.retries;
          readings_lem = refl;
          published_lem = refl;
        };
        round = inr (record {
          wrench = wrench;
          stored = refl;
          sent = ap (λ (ps : List (Wrench F)). ps ++ wrench ∷ []) s.published_lem;
        });
      }

  publish_new-Agrees :
      (o : Option (FtSensor F)) (p : Option (SensorNode F))
      → SameState published readings o p
      → Agrees published readings
          (take_message quotient zero_value nan minus o)
          (publish_new quotient zero_value minus now p)
  unfolding SameState Agrees take_message publish_new state_got_new_message
  publish_new-Agrees none none s = tt
  publish_new-Agrees none (some w) s = absurd s
  publish_new-Agrees (some h) none s = absurd s
  publish_new-Agrees (some h) (some w) s =
      let same : record w { driver = h.driver } ≡ w =
        ap (λ (d : Driver F). record w { driver = d }) (sym s.driver) in
      subst
        (λ (v : SensorNode F).
          Agrees published readings (take_message quotient zero_value nan minus (some h))
            (publish_new quotient zero_value minus now (some v)))
        same
        (message-Agreed h w (is_run h.driver.current_state) (state_got_new_message h.driver).0 s)

  -- Of a hardware component that is not in fake mode and a standalone node with the same driver and the same number of
  -- retries, on whatever the port answers: the round of the one's thread returns exactly if the
  -- callback of the other does; the driver is then the same again; and either neither the readings
  -- of the component nor the wrenches of the node have changed, or the component holds six forces
  -- and the node has published one wrench of the same six.
  pub update-Agrees :
      (m : Meets quotient) (rounds : List (Bool × Meets quotient)) (h : FtSensor F)
      (w : SensorNode F)
      → Same published readings h w
      → Agrees published readings
          (read_background quotient zero_value nan minus m rounds h)
          (update quotient zero_value minus now m rounds w)
  unfolding read_background update
  update-Agrees m rounds h w s =
      subst
        (λ (o : Option (FtSensor F)).
          Agrees published readings o (update quotient zero_value minus now m rounds w))
        (sym (
          by_false h.use_fake_mode (some h)
            (take_message quotient zero_value nan minus
              (Hardware.run_machine quotient zero_value nan minus m rounds h))
            s.real))
        (publish_new-Agrees (Hardware.run_machine quotient zero_value nan minus m rounds h)
          (Standalone.run_machine quotient m rounds w)
          (run_machine-SameState quotient zero_value nan minus published readings m rounds h w s))
