-- ===== src/ThreeFinger/Controller/Parameters.antt =====
-- The parameters of the action `gripper_command` of the controller node, their checks, and the
-- conversions between metres, newtons and the bytes of the gripper. The `double` is a parameter.
pub mod Validity
pub mod Bounds
use ur5_ros.Common.{ℕ, not, Bool, ◌&&◌, ◌||◌, min, if◌then◌else◌, Option, none, some}
use ur5_ros.Common.Double.{ℤ, Double, to_uint8}
use ur5_ros.ThreeFinger.Controller.{in_range}

-- The parameters of the compatibility endpoint.
pub record GripperParameters (D : Double) : Type 0 where
  pub closed_position : D.Carrier
  pub max_opening : D.Carrier
  pub closed_raw : ℕ
  pub min_effort : D.Carrier
  pub max_effort : D.Carrier
  pub default_effort : D.Carrier
  pub speed : ℕ

-- The tests of the constructor on the doubles: `x <= y` is the code's `!(y < x)` of finite numbers.
unfoldable pub doubles_valid :
    (D : Double) → (closed opening minimum maximum default_effort : D.Carrier) → Bool
doubles_valid D closed opening minimum maximum default_effort =
    D.is_finite closed
    && D.is_finite opening
    && not (D.below closed (D.of_int 0))
    && D.below closed opening
    && D.is_finite minimum
    && D.is_finite maximum
    && D.is_finite default_effort
    && not (D.below minimum (D.of_int 0))
    && D.below minimum maximum
    && not (D.below default_effort minimum)
    && not (D.below maximum default_effort)

unfoldable pub checked_parameters :
    (D : Double)
    → (closed opening minimum maximum default_effort : D.Carrier) → (raw speed : Option ℕ)
    → Option (GripperParameters D)
checked_parameters D closed opening minimum maximum default_effort none speed = none
checked_parameters D closed opening minimum maximum default_effort (some raw) none = none
checked_parameters D closed opening minimum maximum default_effort (some raw) (some speed) =
    if doubles_valid D closed opening minimum maximum default_effort
    then some (record {
      closed_position = closed;
      max_opening = opening;
      closed_raw = raw;
      min_effort = minimum;
      max_effort = maximum;
      default_effort = default_effort;
      speed = speed;
    })
    else none

-- `none` is the std::invalid_argument of the constructor.
unfoldable pub configure_gripper :
    (D : Double)
    → (closed opening minimum maximum default_effort : D.Carrier) → (closed_raw speed : ℤ)
    → Option (GripperParameters D)
configure_gripper D closed opening minimum maximum default_effort raw speed =
    checked_parameters D closed opening minimum maximum default_effort (in_range 1 255 raw)
      (in_range 0 255 speed)

module _ (D : Double) (p : GripperParameters D) where
  unfoldable pub opening_range : D.Carrier
  opening_range = D.sub p.max_opening p.closed_position

  unfoldable pub gripper_command_position_to_raw : D.Carrier → ℕ
  gripper_command_position_to_raw position = to_uint8 (
      D.lround (D.mul (D.of_int p.closed_raw) (D.div (D.sub p.max_opening position) opening_range)))

  -- The smaller of the two bytes, as a double.
  unfoldable pub gripper_command_raw_to_position : ℕ → D.Carrier
  gripper_command_raw_to_position raw =
      D.sub p.max_opening
        (D.mul (D.div (D.of_int (min raw p.closed_raw)) (D.of_int p.closed_raw)) opening_range)

  -- Of the finite numbers, an effort that equals 0, neither below it nor above it, selects the default.
  unfoldable pub chosen_effort : D.Carrier → D.Carrier
  chosen_effort effort =
      if D.below effort (D.of_int 0) || D.below (D.of_int 0) effort
      then effort
      else p.default_effort

  unfoldable pub gripper_command_effort_to_raw : D.Carrier → ℕ
  gripper_command_effort_to_raw effort = to_uint8 (
      D.lround (
        D.mul (D.of_int 255)
          (D.div (D.sub (chosen_effort effort) p.min_effort) (D.sub p.max_effort p.min_effort))))

  unfoldable pub position_accepted : D.Carrier → Bool
  position_accepted position =
      D.is_finite position
      && not (D.below position p.closed_position)
      && not (D.below p.max_opening position)

  unfoldable pub effort_accepted : D.Carrier → Bool
  effort_accepted effort =
      D.is_finite effort
      && not (D.below effort (D.of_int 0))
      && (not (D.below (D.of_int 0) effort)
          || not (D.below effort p.min_effort) && not (D.below p.max_effort effort))
