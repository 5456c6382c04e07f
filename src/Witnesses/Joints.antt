-- ===== src/Witnesses/Joints.antt =====
-- The joint mapping of the three-finger gripper with whole numbers in the place of `double`.
use ur5_ros.Common.Double.{Double}
use ur5_ros.Common.{◌≡◌, refl, some, [], ◌∷◌, arith, ℕ, ◌*◌, ltb, ◌/◌, true, false}
use ur5_ros.ThreeFinger.JointMapping.{
  PiecewiseLinearMap, piecewise_linear_map, evaluate, upper_bound, line, at, front, back,
  all_finite, increasing, rises,
}
use ur5_ros.ThreeFinger.JointMapping.Segments.{Angle, evaluate-Angle}
use ur5_ros.Witnesses.Doubles.{whole_numbers}

abbrev table : PiecewiseLinearMap whole_numbers
table = record { inputs = 6 ∷ 10 ∷ 12 ∷ []; outputs = 100 ∷ 120 ∷ 200 ∷ [] }

table_run :
    piecewise_linear_map whole_numbers (6 ∷ 10 ∷ 12 ∷ []) (100 ∷ 120 ∷ 200 ∷ []) ≡ some table
unfolding piecewise_linear_map all_finite increasing rises
table_run = refl

last_run : evaluate whole_numbers table 12 ≡ 200
unfolding evaluate front back
last_run = refl

row_run : evaluate whole_numbers table 10 ≡ 120
unfolding evaluate front back line at upper_bound
row_run = refl

-- Numbers with two decimals, counted in hundredths.
abbrev hundredths : Double
hundredths = record whole_numbers {
  of_int = λ n. n * 100;
  mul = λ x y. x * y / 100;
  div = λ x y. x * 100 / y;
}

hundredths-below-le : (x y : ℕ) → ltb x y ≡ true → ltb y x ≡ false
hundredths-below-le x y h = ground arith

abbrev fine_table : PiecewiseLinearMap hundredths
fine_table = record { inputs = 600 ∷ 1000 ∷ 1200 ∷ []; outputs = 10000 ∷ 12000 ∷ 20000 ∷ [] }

-- A quarter of the way from 10 to 12 gives a quarter of the way from 120 to 200.
quarter_run : evaluate hundredths fine_table 1050 ≡ 14000
unfolding evaluate front back line at upper_bound
quarter_run = refl

evaluate-Angle_example : Angle hundredths fine_table 1050 (evaluate hundredths fine_table 1050)
evaluate-Angle_example = evaluate-Angle hundredths hundredths-below-le fine_table 1050 (omega arith)
