-- ===== src/Witnesses/Doubles.antt =====
-- Whole numbers in the place of `double`, with a division that rounds down: they satisfy the laws
-- that the models assume of the operations.
use native.Mathlib.Nat.{div-eq_of_lt, div_self}
use ur5_ros.Common.{
  ℕ, zero, suc, ◌+◌, ◌-◌, ◌*◌, ◌/◌, ◌<◌, ◌≡◌, refl, Bool, true, false, ltb, arith, Option, some,
  not, ◌≤◌, none,
}
use ur5_ros.Common.Double.{pos, Double, Laws, ByteLaws, ℤ}

abbrev pub whole_numbers : Double
whole_numbers = record {
  Carrier = ℕ;
  of_int = λ n. n;
  is_finite = λ n. true;
  below = ltb;
  add = λ x y. x + y;
  sub = λ x y. x - y;
  mul = λ x y. x * y;
  div = λ x y. x / y;
  lround = pos;
  to_duration = λ x. x;
  nan = 0;
  is_nan = λ x. false;
  abs = λ x. x;
  neg = λ x. x;
  truncate = pos;
}

at_most_one : (x y : ℕ) → ltb y x ≡ false → ltb 0 y ≡ true → ltb 1 (x / y) ≡ false
at_most_one x y h p = by_order (ltb x y) refl
  where
    below_case : x < y → x / y ≡ 0
    below_case l = div-eq_of_lt l

    by_order : (b : Bool) → ltb x y ≡ b → ltb 1 (x / y) ≡ false
    by_order true e = rw (below_case (ground arith))
    by_order false e =
        let same : x ≡ y = ground arith in
        let one : y / y ≡ 1 = div_self (ground arith) in rw (same, one)

times_most : (n x : ℕ) → ltb 1 x ≡ false → ltb n (n * x) ≡ false
times_most n zero h = ground arith
times_most n (suc zero) h = ground arith
times_most n (suc (suc x)) h = absurd (ground arith)

pub whole_numbers-Laws : Laws whole_numbers
whole_numbers-Laws = record {
  le_trans = λ x y z f a b. ground arith;
  below-le = λ x y h. ground arith;
  sub_positive = λ x y h. ground arith;
  sub_nonnegative = λ x y h. ground arith;
  sub_left = λ x y z h. ground arith;
  sub_right = λ x y z h. ground arith;
  sub_finite = λ x y f g a b. refl;
  div_finite = λ x y f g a b c. refl;
  mul_finite = λ n x s f a b. refl;
  div_nonnegative = λ x y a b. ground arith;
  div_most_one = at_most_one;
  mul_nonnegative = λ n x a. ground arith;
  mul_most = times_most;
  lround_bounded = λ n x f a b. (x, refl, ground arith);
}

-- The same with a NaN, `none`, which no order holds of.
abbrev pub both : (ℕ → ℕ → ℕ) → Option ℕ → Option ℕ → Option ℕ
both f (some x) (some y) = some (f x y)
both f (some x) none = none
both f none y = none

abbrev pub below_both : Option ℕ → Option ℕ → Bool
below_both (some x) (some y) = ltb x y
below_both (some x) none = false
below_both none y = false

abbrev pub is_none : Option ℕ → Bool
is_none none = true
is_none (some x) = false

abbrev pub whole_part : Option ℕ → ℤ
whole_part none = pos 0
whole_part (some x) = pos x

abbrev pub optional_numbers : Double
optional_numbers = record {
  Carrier = Option ℕ;
  of_int = some;
  is_finite = λ x. not (is_none x);
  below = below_both;
  add = both (λ x y. x + y);
  sub = both (λ x y. x - y);
  mul = both (λ x y. x * y);
  div = both (λ x y. x / y);
  lround = whole_part;
  nan = none;
  is_nan = is_none;
  abs = λ x. x;
  neg = λ x. x;
  truncate = whole_part;
  to_duration = λ x. 0;
}

part_number_lem :
    (n : ℕ) (x : Option ℕ) → is_none x ≡ false → is_none (both (λ a b. a * b) x (some n)) ≡ false
part_number_lem n none h = absurd (cc)
part_number_lem n (some x) h = refl

part_nonnegative_lem :
    (n : ℕ) (x : Option ℕ) → below_both (both (λ a b. a * b) x (some n)) (some 0) ≡ false
part_nonnegative_lem n none = refl
part_nonnegative_lem n (some x) = ground arith

part_most_lem :
    (n : ℕ) (x : Option ℕ)
    → below_both (some 1) x ≡ false
    → below_both (some n) (both (λ a b. a * b) x (some n)) ≡ false
part_most_lem n none h = refl
part_most_lem n (some zero) h = ground arith
part_most_lem n (some (suc zero)) h = ground arith
part_most_lem n (some (suc (suc x))) h = absurd (ground arith)

truncate_lem :
    (n : ℕ) (x : Option ℕ)
    → is_none x ≡ false
    → below_both (some n) x ≡ false
    → (k : ℕ) × (whole_part x ≡ pos k) × (k ≤ n)
truncate_lem n none h u = absurd (cc)
truncate_lem n (some x) h u = (x, refl, ground arith)

pub optional_numbers-ByteLaws : ByteLaws optional_numbers
optional_numbers-ByteLaws = record {
  nan_lem = refl;
  of_int_number = λ n. refl;
  of_int-below = λ m n h k. ground arith;
  of_int-le = λ m n h k. ground arith;
  part_number = λ n x s h a b. part_number_lem n x h;
  part_nonnegative = λ n x a. part_nonnegative_lem n x;
  part_most = λ n x a. part_most_lem n x a;
  truncate_bounded = λ n x h a b. truncate_lem n x h b;
}
