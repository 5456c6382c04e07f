-- ===== src/ThreeFinger/Controller/Parameters/Validity.antt =====
-- What the checks of the constructor say of the parameters of `gripper_command`.
use mathlib.Core.Path.{subst}
use ur5_ros.Common.{
  and-four, Option, ◌≡◌, true, false, if◌then◌else◌, not, ◌&&◌, ◌||◌, and-three, not-true, ltb,
  none, some, refl, arith, ℕ, ◌≤◌, Bool,
}
use ur5_ros.Common.Double.{ℤ, pos, negsuc, Double}
use ur5_ros.ThreeFinger.Controller.{in_range}
use ur5_ros.ThreeFinger.Controller.Parameters.{GripperParameters, doubles_valid, checked_parameters}

pub record ValidGripper (D : Double) (p : GripperParameters D) : Type 0 where
  pub closed_finite : D.is_finite p.closed_position ≡ true
  pub opening_finite : D.is_finite p.max_opening ≡ true
  pub closed_nonnegative : D.below p.closed_position (D.of_int 0) ≡ false
  pub closed_below : D.below p.closed_position p.max_opening ≡ true
  pub minimum_finite : D.is_finite p.min_effort ≡ true
  pub maximum_finite : D.is_finite p.max_effort ≡ true
  pub default_finite : D.is_finite p.default_effort ≡ true
  pub minimum_nonnegative : D.below p.min_effort (D.of_int 0) ≡ false
  pub minimum_below : D.below p.min_effort p.max_effort ≡ true
  pub default_lower : D.below p.default_effort p.min_effort ≡ false
  pub default_upper : D.below p.max_effort p.default_effort ≡ false
  pub raw : p.closed_raw ≤ 255

-- The tests of the constructor, one by one.
tests-ValidGripper :
    (D : Double) (p : GripperParameters D)
    → p.closed_raw ≤ 255
    → doubles_valid D p.closed_position p.max_opening p.min_effort p.max_effort p.default_effort
      ≡ true
    → ValidGripper D p
unfolding doubles_valid
tests-ValidGripper D p raw h =
    let opens =
      D.is_finite p.closed_position
      && D.is_finite p.max_opening
      && not (D.below p.closed_position (D.of_int 0))
      && D.below p.closed_position p.max_opening in
    let finite = opens && D.is_finite p.min_effort && D.is_finite p.max_effort in
    let positive =
      finite && D.is_finite p.default_effort && not (D.below p.min_effort (D.of_int 0)) in
    let (h8, minimum_below, default_lower, default_upper) =
      and-four positive (D.below p.min_effort p.max_effort)
        (not (D.below p.default_effort p.min_effort)) (not (D.below p.max_effort p.default_effort))
        h in
    let (h6, default_finite, nonnegative) =
      and-three finite (D.is_finite p.default_effort) (not (D.below p.min_effort (D.of_int 0)))
        h8 in
    let (h4, minimum_finite, maximum_finite) =
      and-three opens (D.is_finite p.min_effort) (D.is_finite p.max_effort) h6 in
    let (closed_finite, opening_finite, closed_nonnegative, closed_below) =
      and-four (D.is_finite p.closed_position) (D.is_finite p.max_opening)
        (not (D.below p.closed_position (D.of_int 0))) (D.below p.closed_position p.max_opening)
        h4 in
    record {
      closed_finite = closed_finite;
      opening_finite = opening_finite;
      closed_nonnegative = not-true (D.below p.closed_position (D.of_int 0)) closed_nonnegative;
      closed_below = closed_below;
      minimum_finite = minimum_finite;
      maximum_finite = maximum_finite;
      default_finite = default_finite;
      minimum_nonnegative = not-true (D.below p.min_effort (D.of_int 0)) nonnegative;
      minimum_below = minimum_below;
      default_lower = not-true (D.below p.default_effort p.min_effort) default_lower;
      default_upper = not-true (D.below p.max_effort p.default_effort) default_upper;
      raw = raw;
    }

pub raw_of : (low high : ℕ) (z : ℤ) (n : ℕ) → in_range low high z ≡ some n → n ≤ high
unfolding in_range
raw_of low high (pos m) n h = by_tests (ltb m low) (ltb high m) refl h
  where
    by_tests : (a b : Bool) → ltb high m ≡ b → (if a || b then none else some m) ≡ some n → n ≤ high
    by_tests true b g h = absurd (cc)
    by_tests false true g h = absurd (cc)
    by_tests false false g h = let same : m ≡ n = cc in ground arith
raw_of low high (negsuc m) n h = absurd (cc)

pub valid_of :
    (D : Double) (closed opening minimum maximum default_effort : D.Carrier) (raw speed : Option ℕ)
    (p : GripperParameters D)
    → ((n : ℕ) → raw ≡ some n → n ≤ 255)
    → checked_parameters D closed opening minimum maximum default_effort raw speed ≡ some p
    → ValidGripper D p
unfolding checked_parameters
valid_of D closed opening minimum maximum default_effort none speed p bound h = absurd (cc)
valid_of D closed opening minimum maximum default_effort (some raw) none p bound h = absurd (cc)
valid_of D closed opening minimum maximum default_effort (some raw) (some speed) p bound h =
    by_tests (doubles_valid D closed opening minimum maximum default_effort) refl h
  where
    made : GripperParameters D
    made = record {
      closed_position = closed;
      max_opening = opening;
      closed_raw = raw;
      min_effort = minimum;
      max_effort = maximum;
      default_effort = default_effort;
      speed = speed;
    }

    by_tests :
        (b : Bool)
        → doubles_valid D closed opening minimum maximum default_effort ≡ b
        → (if b then some made else none) ≡ some p
        → ValidGripper D p
    by_tests false e h = absurd (cc)
    by_tests true e h =
        let same : made ≡ p = cc in
        subst (ValidGripper D) same (tests-ValidGripper D made (bound raw refl) e)
