-- ===== src/ThreeFinger/JointMapping.antt =====
-- robotiq_3f_state_publisher/src/joint_mapping.cpp: the angles of the joints from the positions of the
-- fingers, by tables between which the angle is linear. The `double` is a parameter.
pub mod Segments
use Prim.Native.String
use Prim.Native.String.{String}
use ur5_ros.Common.{
  ℕ, zero, suc, ◌-◌, not, Bool, true, false, ◌&&◌, ◌||◌, ◌==◌, ◌!=◌, ltb, List, [], ◌∷◌, length,
  get_or, Option, some, none, if◌then◌else◌,
}
use ur5_ros.Common.Double.{Double}

pub record PiecewiseLinearMap (D : Double) : Type 0 where
  pub inputs : List D.Carrier
  pub outputs : List D.Carrier

module _ (D : Double) where
  unfoldable pub all_finite : List D.Carrier → Bool
  all_finite [] = true
  all_finite (x ∷ xs) = D.is_finite x && all_finite xs

  unfoldable pub rises : D.Carrier → List D.Carrier → Bool
  rises x [] = true
  rises x (y ∷ ys) = D.below x y && rises y ys

  unfoldable pub increasing : List D.Carrier → Bool
  increasing [] = true
  increasing (x ∷ xs) = rises x xs

  -- `none` is the std::invalid_argument of the constructor.
  unfoldable pub piecewise_linear_map :
      (inputs outputs : List D.Carrier) → Option (PiecewiseLinearMap D)
  piecewise_linear_map inputs outputs =
      if ltb (length inputs) 2 || length inputs != length outputs
      then none
      else if all_finite inputs && all_finite outputs && increasing inputs
      then some (record { inputs = inputs; outputs = outputs })
      else none

  -- `front` and `back`; a table that was accepted is not empty.
  unfoldable pub front : List D.Carrier → D.Carrier
  front [] = D.of_int 0
  front (x ∷ xs) = x

  unfoldable pub back : List D.Carrier → D.Carrier
  back [] = D.of_int 0
  back (x ∷ []) = x
  back (x ∷ y ∷ xs) = back (y ∷ xs)

  unfoldable pub at : List D.Carrier → ℕ → D.Carrier
  at xs index = get_or xs index (D.of_int 0)

  -- std::upper_bound on an increasing table: the index of the first element that is above the input.
  unfoldable pub upper_bound : D.Carrier → List D.Carrier → ℕ
  upper_bound input [] = 0
  upper_bound input (x ∷ xs) = if D.below input x then 0 else suc (upper_bound input xs)

  -- The value at the input of the line through two points of the table.
  unfoldable pub line : PiecewiseLinearMap D → (lower upper : ℕ) → D.Carrier → D.Carrier
  line m lower upper input =
      let fraction =
        D.div (D.sub input (at m.inputs lower)) (D.sub (at m.inputs upper) (at m.inputs lower)) in
      D.add (at m.outputs lower) (D.mul fraction (D.sub (at m.outputs upper) (at m.outputs lower)))

  -- `x <= y` is `not (y < x)` of numbers that are not NaN; the inputs are bytes and the table is finite.
  unfoldable pub evaluate : PiecewiseLinearMap D → D.Carrier → D.Carrier
  evaluate m input =
      if not (D.below (front m.inputs) input)
      then front m.outputs
      else if not (D.below input (back m.inputs))
      then back m.outputs
      else line m (upper_bound input m.inputs - 1) (upper_bound input m.inputs) input

pub record FingerMaps (D : Double) : Type 0 where
  pub proximal : PiecewiseLinearMap D
  pub middle : PiecewiseLinearMap D
  pub distal : PiecewiseLinearMap D

pub record GripperJointMapper (D : Double) : Type 0 where
  pub finger_maps : FingerMaps D
  pub pinch_finger_maps : FingerMaps D
  pub scissor_map : PiecewiseLinearMap D

-- The joints of a finger.
pub record Finger (D : Double) : Type 0 where
  pub proximal_joint : D.Carrier
  pub middle_joint : D.Carrier
  pub distal_joint : D.Carrier

module _ (D : Double) where
  unfoldable pub finger : FingerMaps D → ℕ → Finger D
  finger maps position = record {
    proximal_joint = evaluate D maps.proximal (D.of_int position);
    middle_joint = evaluate D maps.middle (D.of_int position);
    distal_joint = evaluate D maps.distal (D.of_int position);
  }

  unfoldable pub active_maps : GripperJointMapper D → (mode : ℕ) → FingerMaps D
  active_maps m mode = if mode == 1 then m.pinch_finger_maps else m.finger_maps

  unfoldable pub joint_positions : (a b c : Finger D) → (scissor : D.Carrier) → List D.Carrier
  joint_positions a b c scissor =
      a.proximal_joint
      ∷ a.middle_joint
      ∷ a.distal_joint
      ∷ scissor
      ∷ b.proximal_joint
      ∷ b.middle_joint
      ∷ b.distal_joint
      ∷ D.neg scissor
      ∷ c.proximal_joint
      ∷ c.middle_joint
      ∷ c.distal_joint
      ∷ []

  unfoldable pub map_joints :
      GripperJointMapper D
      → (mode position_a position_b position_c position_scissor : ℕ) → List D.Carrier
  map_joints m mode position_a position_b position_c position_scissor =
      let maps = active_maps m mode in
      joint_positions (finger maps position_a) (finger maps position_b) (finger maps position_c)
        (evaluate D m.scissor_map (D.of_int position_scissor))

unfoldable pub prefixed_names : (prefix : String) → List String → List String
prefixed_names prefix [] = []
prefixed_names prefix (name ∷ names) = String.◌++◌ prefix name ∷ prefixed_names prefix names

unfoldable pub joint_names : (prefix : String) → List String
joint_names prefix = prefixed_names prefix (
    "robotiq_3f_finger_a_proximal_joint" ∷ "robotiq_3f_finger_a_middle_joint"
    ∷ "robotiq_3f_finger_a_distal_joint" ∷ "robotiq_3f_finger_b_scissor_joint"
    ∷ "robotiq_3f_finger_b_proximal_joint" ∷ "robotiq_3f_finger_b_middle_joint"
    ∷ "robotiq_3f_finger_b_distal_joint" ∷ "robotiq_3f_finger_c_scissor_joint"
    ∷ "robotiq_3f_finger_c_proximal_joint" ∷ "robotiq_3f_finger_c_middle_joint"
    ∷ "robotiq_3f_finger_c_distal_joint" ∷ [])
