-- ===== src/ThreeFinger/Controller/Parameters/Bounds.antt =====
-- The bytes that the action `gripper_command` computes from metres and newtons.
use ur5_ros.ThreeFinger.Controller.Parameters.Validity.{ValidGripper, raw_of, valid_of}
use ur5_ros.Common.{
  ◌≡◌, true, false, if◌then◌else◌, not, ◌&&◌, ◌||◌, and-both, and-three, not-true, some, ◌%◌, arith,
  ℕ, ◌≤◌, Bool,
}
use ur5_ros.Common.Double.{ℤ, pos, Double, Laws, to_uint8}
use ur5_ros.ThreeFinger.Controller.{in_range}
use ur5_ros.ThreeFinger.Controller.Parameters.{
  GripperParameters, configure_gripper, opening_range, gripper_command_position_to_raw,
  chosen_effort, gripper_command_effort_to_raw, position_accepted, effort_accepted,
}

-- A number between 0 and a bound that is not below it, and finite.
record Within (D : Double) (low high x : D.Carrier) : Type 0 where
  finite : D.is_finite x ≡ true
  lower : D.below x low ≡ false
  upper : D.below high x ≡ false

module _ (D : Double) (laws : Laws D) where
  -- n * ((b - c) / (e - f)), for a difference of numbers in order that is part of another.
  scaled :
      (n : ℕ) (part whole : D.Carrier)
      → n ≤ 255
      → D.is_finite whole ≡ true
      → D.below (D.of_int 0) whole ≡ true
      → Within D (D.of_int 0) whole part
      → (k : ℕ) × (D.lround (D.mul (D.of_int n) (D.div part whole)) ≡ pos k) × (k ≤ n)
  scaled n part whole small f positive w =
      let x : D.Carrier = D.div part whole in
      let low = laws.div_nonnegative part whole w.lower positive in
      let high = laws.div_most_one part whole w.upper positive in
      let finite = laws.div_finite part whole w.finite f w.lower w.upper positive in
      laws.lround_bounded n (D.mul (D.of_int n) x) (laws.mul_finite n x small finite low high)
        (laws.mul_nonnegative n x low) (laws.mul_most n x high)

  -- A difference that is finite.
  whole_finite :
      (low high : D.Carrier)
      → D.is_finite low ≡ true
      → D.is_finite high ≡ true
      → D.below low (D.of_int 0) ≡ false
      → D.below low high ≡ true
      → D.is_finite (D.sub high low) ≡ true
  whole_finite low high fl fh nonneg lt =
      laws.sub_finite high low fh fl nonneg (laws.below-le low high lt)

  -- The distance to the upper end of a range.
  from_above :
      (low high x : D.Carrier)
      → Within D low high x
      → D.is_finite low ≡ true
      → D.is_finite high ≡ true
      → D.below low (D.of_int 0) ≡ false
      → Within D (D.of_int 0) (D.sub high low) (D.sub high x)
  from_above low high x w fl fh nonneg = record {
    finite =
        laws.sub_finite high x fh w.finite (laws.le_trans (D.of_int 0) low x fl nonneg w.lower)
          w.upper;
    lower = laws.sub_nonnegative x high w.upper;
    upper = laws.sub_right low x high w.lower;
  }

  -- The distance to the lower end of a range.
  from_below :
      (low high x : D.Carrier)
      → Within D low high x
      → D.is_finite low ≡ true
      → D.below low (D.of_int 0) ≡ false
      → Within D (D.of_int 0) (D.sub high low) (D.sub x low)
  from_below low high x w fl nonneg = record {
    finite = laws.sub_finite x low w.finite fl nonneg w.lower;
    lower = laws.sub_nonnegative low x w.lower;
    upper = laws.sub_left x high low w.upper;
  }

  position_lem :
      (p : GripperParameters D) (x : D.Carrier)
      → ValidGripper D p
      → position_accepted D p x ≡ true
      → (k : ℕ) × (D.lround
            (D.mul (D.of_int p.closed_raw) (D.div (D.sub p.max_opening x) (opening_range D p)))
          ≡ pos k)
        × (k ≤ p.closed_raw)
  unfolding position_accepted opening_range
  position_lem p x v h =
      let (finite, lower, upper) =
        and-three (D.is_finite x) (not (D.below x p.closed_position))
          (not (D.below p.max_opening x)) h in
      scaled p.closed_raw (D.sub p.max_opening x) (D.sub p.max_opening p.closed_position) v.raw
        (whole_finite p.closed_position p.max_opening v.closed_finite v.opening_finite
          v.closed_nonnegative v.closed_below)
        (laws.sub_positive p.closed_position p.max_opening v.closed_below)
        (from_above p.closed_position p.max_opening x
          (record {
            finite = finite;
            lower = not-true (D.below x p.closed_position) lower;
            upper = not-true (D.below p.max_opening x) upper;
          })
          v.closed_finite v.opening_finite v.closed_nonnegative)

  chosen-Within :
      (p : GripperParameters D) (x : D.Carrier)
      → ValidGripper D p
      → effort_accepted D p x ≡ true
      → Within D p.min_effort p.max_effort (chosen_effort D p x)
  unfolding effort_accepted chosen_effort
  chosen-Within p x v h =
      let (finite, nonneg, range) =
        and-three (D.is_finite x) (not (D.below x (D.of_int 0)))
          (not (D.below (D.of_int 0) x)
            || not (D.below x p.min_effort) && not (D.below p.max_effort x))
          h in
      by_zero (D.below x (D.of_int 0)) (D.below (D.of_int 0) x)
        (not-true (D.below x (D.of_int 0)) nonneg) finite range
    where
      by_zero :
          (negative positive : Bool)
          → negative ≡ false
          → D.is_finite x ≡ true
          → (not positive || not (D.below x p.min_effort) && not (D.below p.max_effort x)) ≡ true
          → Within D p.min_effort p.max_effort
              (if negative || positive then x else p.default_effort)
      by_zero true positive n f r = absurd (cc)
      by_zero false false n f r = record {
        finite = v.default_finite;
        lower = v.default_lower;
        upper = v.default_upper;
      }
      by_zero false true n f r =
          let (lower, upper) =
            and-both (not (D.below x p.min_effort)) (not (D.below p.max_effort x)) r in
          record {
            finite = f;
            lower = not-true (D.below x p.min_effort) lower;
            upper = not-true (D.below p.max_effort x) upper;
          }

  effort_lem :
      (p : GripperParameters D) (x : D.Carrier)
      → ValidGripper D p
      → effort_accepted D p x ≡ true
      → (k : ℕ) × (D.lround (
            D.mul
              (D.of_int 255)
              (D.div (D.sub (chosen_effort D p x) p.min_effort) (D.sub p.max_effort p.min_effort)))
          ≡ pos k)
        × (k ≤ 255)
  effort_lem p x v h =
      scaled 255 (D.sub (chosen_effort D p x) p.min_effort) (D.sub p.max_effort p.min_effort)
        (omega arith)
        (whole_finite p.min_effort p.max_effort v.minimum_finite v.maximum_finite
          v.minimum_nonnegative v.minimum_below)
        (laws.sub_positive p.min_effort p.max_effort v.minimum_below)
        (from_below p.min_effort p.max_effort (chosen_effort D p x) (chosen-Within p x v h)
          v.minimum_finite v.minimum_nonnegative)

cast_lem :
    (z : ℤ) (k n : ℕ) → z ≡ pos k → k ≤ n → n ≤ 255 → (z ≡ pos (to_uint8 z)) × (to_uint8 z ≤ n)
unfolding to_uint8
cast_lem z k n e h m = let small : k % 256 ≡ k = omega arith in (rw (e, small), rw (e, small) h)

-- The integers that are cast to a byte for an accepted goal.
pub record Bytes (D : Double) (p : GripperParameters D) (position effort : D.Carrier) : Type 0 where
  pub position_exact :
      D.lround
        (D.mul (D.of_int p.closed_raw) (D.div (D.sub p.max_opening position) (opening_range D p)))
      ≡ pos (gripper_command_position_to_raw D p position)
  pub position_bounded : gripper_command_position_to_raw D p position ≤ p.closed_raw
  pub effort_exact :
      D.lround (
        D.mul
          (D.of_int 255)
          (D.div (D.sub (chosen_effort D p effort) p.min_effort) (D.sub p.max_effort p.min_effort)))
      ≡ pos (gripper_command_effort_to_raw D p effort)

-- Under the laws of the floating-point operations, for parameters that pass the checks of the
-- constructor, the position and the effort of an accepted goal become bytes without a loss: the
-- rounded numbers are not negative and at most 255, and the position is never beyond the byte of the
-- closed gripper.
pub accepted-Bytes :
    (D : Double) (closed opening minimum maximum default_effort : D.Carrier) (raw speed : ℤ)
    (p : GripperParameters D) (position effort : D.Carrier)
    → Laws D
    → configure_gripper D closed opening minimum maximum default_effort raw speed ≡ some p
    → position_accepted D p position ≡ true
    → effort_accepted D p effort ≡ true
    → Bytes D p position effort
unfolding configure_gripper gripper_command_position_to_raw gripper_command_effort_to_raw
accepted-Bytes D closed opening minimum maximum default_effort raw speed p position effort laws h a
      b =
    let v =
      valid_of D closed opening minimum maximum default_effort (in_range 1 255 raw)
        (in_range 0 255 speed) p (λ n e. raw_of 1 255 raw n e) h in
    let (k, rounded, small) = position_lem D laws p position v a in
    let (m, effort_rounded, effort_small) = effort_lem D laws p effort v b in
    let position_cast =
      cast_lem
        (D.lround (
          D.mul (D.of_int p.closed_raw) (D.div (D.sub p.max_opening position) (opening_range D p))))
        k p.closed_raw rounded small v.raw in
    let effort_cast =
      cast_lem
        (D.lround (
          D.mul (D.of_int 255) (
            D.div (D.sub (chosen_effort D p effort) p.min_effort)
              (D.sub p.max_effort p.min_effort))))
        m 255 effort_rounded effort_small (omega arith) in
    record {
      position_exact = position_cast.0;
      position_bounded = position_cast.1;
      effort_exact = effort_cast.0;
    }
