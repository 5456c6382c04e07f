-- ===== src/Common/Double.antt =====
-- The C++ number types of which the models read no representation: the integers with a sign, and
-- `double` as a record of its operations, the ones that the modelled code calls.
use Prim.Native.Nat.{ℕ, ◌-◌, ◌%◌, ◌≤◌, ◌<◌}
use ur5_ros.Common.Tests.{if◌then◌else◌}
use mathlib.Core.Path.{◌≡◌}
use mathlib.Core.Bool.{Bool, true, false, not, ◌&&◌}

pub data ℤ : Type 0 where
  pos : ℕ → ℤ
  negsuc : ℕ → ℤ

-- `static_cast<std::uint8_t>`.
unfoldable pub to_uint8 : ℤ → ℕ
to_uint8 (pos n) = n % 256
to_uint8 (negsuc n) = 255 - n % 256

-- `below x y` is `x < y`; `to_duration` is the duration_cast of a positive number of seconds.
pub record Double : Type 1 where
  pub Carrier : Type 0
  pub of_int : ℕ → Carrier
  pub is_finite : Carrier → Bool
  pub below : Carrier → Carrier → Bool
  pub add : Carrier → Carrier → Carrier
  pub sub : Carrier → Carrier → Carrier
  pub mul : Carrier → Carrier → Carrier
  pub div : Carrier → Carrier → Carrier
  pub lround : Carrier → ℤ
  pub nan : Carrier
  pub is_nan : Carrier → Bool
  pub abs : Carrier → Carrier
  pub neg : Carrier → Carrier
  pub truncate : Carrier → ℤ
  pub to_duration : Carrier → ℕ

-- std::min, std::max and std::clamp, each with the comparison of the standard.
unfoldable pub min_double : (D : Double) → D.Carrier → D.Carrier → D.Carrier
min_double D x y = if D.below y x then y else x

unfoldable pub max_double : (D : Double) → D.Carrier → D.Carrier → D.Carrier
max_double D x y = if D.below x y then y else x

unfoldable pub clamp : (D : Double) → (value low high : D.Carrier) → D.Carrier
clamp D value low high =
    if D.below value low then low else if D.below high value then high else value

-- The comparison `==` of numbers.
unfoldable pub same_double : (D : Double) → D.Carrier → D.Carrier → Bool
same_double D x y = not (D.is_nan x) && not (D.is_nan y) && not (D.below x y) && not (D.below y x)

-- What IEEE arithmetic says of numbers that are finite: the order is total and transitive, the
-- rounded operations are monotone, and the integers in use are exact. `x` is at most `y` where
-- `below y x` does not hold.
pub record Laws (D : Double) : Type 0 where
  pub le_trans :
      (x y z : D.Carrier)
      → D.is_finite y ≡ true
      → D.below y x ≡ false
      → D.below z y ≡ false
      → D.below z x ≡ false
  pub below-le : (x y : D.Carrier) → D.below x y ≡ true → D.below y x ≡ false
  -- A difference of numbers in their order, and one that shrinks as its second number grows.
  pub sub_positive :
      (x y : D.Carrier) → D.below x y ≡ true → D.below (D.of_int 0) (D.sub y x) ≡ true
  pub sub_nonnegative :
      (x y : D.Carrier) → D.below y x ≡ false → D.below (D.sub y x) (D.of_int 0) ≡ false
  pub sub_left : (x y z : D.Carrier) → D.below y x ≡ false → D.below (D.sub y z) (D.sub x z) ≡ false
  pub sub_right :
      (x y z : D.Carrier) → D.below y x ≡ false → D.below (D.sub z x) (D.sub z y) ≡ false
  pub sub_finite :
      (x y : D.Carrier)
      → D.is_finite x ≡ true
      → D.is_finite y ≡ true
      → D.below y (D.of_int 0) ≡ false
      → D.below x y ≡ false
      → D.is_finite (D.sub x y) ≡ true
  -- A fraction of a whole.
  pub div_finite :
      (x y : D.Carrier)
      → D.is_finite x ≡ true
      → D.is_finite y ≡ true
      → D.below x (D.of_int 0) ≡ false
      → D.below y x ≡ false
      → D.below (D.of_int 0) y ≡ true
      → D.is_finite (D.div x y) ≡ true
  pub mul_finite :
      (n : ℕ) (x : D.Carrier)
      → n ≤ 255
      → D.is_finite x ≡ true
      → D.below x (D.of_int 0) ≡ false
      → D.below (D.of_int 1) x ≡ false
      → D.is_finite (D.mul (D.of_int n) x) ≡ true
  pub div_nonnegative :
      (x y : D.Carrier)
      → D.below x (D.of_int 0) ≡ false
      → D.below (D.of_int 0) y ≡ true
      → D.below (D.div x y) (D.of_int 0) ≡ false
  pub div_most_one :
      (x y : D.Carrier)
      → D.below y x ≡ false
      → D.below (D.of_int 0) y ≡ true
      → D.below (D.of_int 1) (D.div x y) ≡ false
  pub mul_nonnegative :
      (n : ℕ) (x : D.Carrier)
      → D.below x (D.of_int 0) ≡ false
      → D.below (D.mul (D.of_int n) x) (D.of_int 0) ≡ false
  pub mul_most :
      (n : ℕ) (x : D.Carrier)
      → D.below (D.of_int 1) x ≡ false
      → D.below (D.of_int n) (D.mul (D.of_int n) x) ≡ false
  pub lround_bounded :
      (n : ℕ) (x : D.Carrier)
      → D.is_finite x ≡ true
      → D.below x (D.of_int 0) ≡ false
      → D.below (D.of_int n) x ≡ false
      → (k : ℕ) × (D.lround x ≡ pos k) × (k ≤ n)

-- What IEEE arithmetic says of the bytes among the numbers and of truncation.
pub record ByteLaws (D : Double) : Type 0 where
  pub nan_lem : D.is_nan D.nan ≡ true
  pub of_int_number : (n : ℕ) → D.is_nan (D.of_int n) ≡ false
  pub of_int-below : (m n : ℕ) → m < n → n ≤ 255 → D.below (D.of_int m) (D.of_int n) ≡ true
  pub of_int-le : (m n : ℕ) → m ≤ n → n ≤ 255 → D.below (D.of_int n) (D.of_int m) ≡ false
  -- A fraction of a byte.
  pub part_number :
      (n : ℕ) (x : D.Carrier)
      → n ≤ 255
      → D.is_nan x ≡ false
      → D.below x (D.of_int 0) ≡ false
      → D.below (D.of_int 1) x ≡ false
      → D.is_nan (D.mul x (D.of_int n)) ≡ false
  pub part_nonnegative :
      (n : ℕ) (x : D.Carrier)
      → D.below x (D.of_int 0) ≡ false
      → D.below (D.mul x (D.of_int n)) (D.of_int 0) ≡ false
  pub part_most :
      (n : ℕ) (x : D.Carrier)
      → D.below (D.of_int 1) x ≡ false
      → D.below (D.of_int n) (D.mul x (D.of_int n)) ≡ false
  pub truncate_bounded :
      (n : ℕ) (x : D.Carrier)
      → D.is_nan x ≡ false
      → D.below x (D.of_int 0) ≡ false
      → D.below (D.of_int n) x ≡ false
      → (k : ℕ) × (D.truncate x ≡ pos k) × (k ≤ n)
