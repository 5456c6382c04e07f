-- ===== src/ThreeFinger/JointMapping/Segments.antt =====
-- The segment of a table on which an angle is computed.
use ur5_ros.Common.{
  ℕ, suc, ◌-◌, ◌<◌, ◌≡◌, refl, ap, Bool, true, false, not, List, [], ◌∷◌, length, if◌then◌else◌,
  arith,
}
use ur5_ros.Common.Double.{Double}
use ur5_ros.ThreeFinger.JointMapping.{
  PiecewiseLinearMap, front, back, at, upper_bound, line, evaluate,
}

-- The neighbours of an input in a table: the index of the lower one.
record Enclosed (D : Double) (xs : List D.Carrier) (x : D.Carrier) (u : ℕ) : Type 0 where
  lower : ℕ
  upper : u ≡ suc lower
  in_range : suc lower < length xs
  not_below : D.below x (at D xs lower) ≡ false
  above : D.below x (at D xs (suc lower)) ≡ true

module _ (D : Double) (x : D.Carrier) where
  next-Enclosed :
      (a b : D.Carrier) (bs : List D.Carrier) (t : Bool)
      → D.below x a ≡ false
      → D.below x b ≡ t
      → (D.below x b ≡ false → Enclosed D (b ∷ bs) x (upper_bound D x (b ∷ bs)))
      → Enclosed D (a ∷ b ∷ bs) x (upper_bound D x (a ∷ b ∷ bs))
  unfolding upper_bound at
  next-Enclosed a b bs true low e rest = record {
    lower = 0;
    upper = rw (low, e);
    in_range = omega arith;
    not_below = low;
    above = e;
  }
  next-Enclosed a b bs false low e rest =
      let r = rest e in
      let small : suc r.lower < length (b ∷ bs) = r.in_range in
      record {
        lower = suc r.lower;
        upper = rw (low) (ap suc r.upper);
        in_range = omega arith;
        not_below = r.not_below;
        above = r.above;
      }

  entry-Enclosed :
      (a : D.Carrier) (rest : List D.Carrier)
      → D.below x a ≡ false
      → D.below x (back D (a ∷ rest)) ≡ true
      → Enclosed D (a ∷ rest) x (upper_bound D x (a ∷ rest))
  unfolding back
  entry-Enclosed a [] low high = absurd (clash (D.below x a) low high)
    where
      clash : (b : Bool) → b ≡ false → b ≡ true → ⊥
      clash b e f = cc
  entry-Enclosed a (b ∷ bs) low high =
      next-Enclosed a b bs (D.below x b) low refl (λ e. entry-Enclosed b bs e high)

-- The angle of an input: that of the first or the last row, or between two neighbouring rows.
pub data Angle (D : Double) (m : PiecewiseLinearMap D) (x y : D.Carrier) : Type 0 where
  first_row : D.below (front D m.inputs) x ≡ false → y ≡ front D m.outputs → Angle D m x y
  last_row : D.below x (back D m.inputs) ≡ false → y ≡ back D m.outputs → Angle D m x y
  between_rows :
      (lower : ℕ)
      → suc lower < length m.inputs
      → D.below x (at D m.inputs lower) ≡ false
      → D.below x (at D m.inputs (suc lower)) ≡ true
      → y
        ≡ D.add (at D m.outputs lower) (
            D.mul
              (D.div
                (D.sub x (at D m.inputs lower))
                (D.sub (at D m.inputs (suc lower)) (at D m.inputs lower)))
              (D.sub (at D m.outputs (suc lower)) (at D m.outputs lower)))
      → Angle D m x y

module _ (D : Double) (below-le : (x y : D.Carrier) → D.below x y ≡ true → D.below y x ≡ false)
    (m : PiecewiseLinearMap D) (x : D.Carrier) where
  Enclosed-Angle :
      Enclosed D m.inputs x (upper_bound D x m.inputs)
      → Angle D m x (line D m (upper_bound D x m.inputs - 1) (upper_bound D x m.inputs) x)
  unfolding line
  Enclosed-Angle e =
      let one_less : suc e.lower - 1 ≡ e.lower = omega arith in
      between_rows e.lower e.in_range e.not_below e.above (rw (e.upper, one_less))

  inner-Enclosed :
      (xs : List D.Carrier)
      → 0 < length xs
      → D.below (front D xs) x ≡ true
      → D.below x (back D xs) ≡ true
      → Enclosed D xs x (upper_bound D x xs)
  unfolding front
  inner-Enclosed [] h low high = absurd (omega arith)
  inner-Enclosed (a ∷ rest) h low high = entry-Enclosed D x a rest (below-le a x low) high

  -- For a table that is not empty, and a comparison of which not both orders hold, `evaluate` is the first output at and before the first input, the
  -- last output at and after the last one, and else, for two neighbouring rows (x0, y0) and (x1, y1)
  -- of the table with x0 not above the input x and x1 above it,
  -- y0 + ((x - x0) / (x1 - x0)) * (y1 - y0).
  pub evaluate-Angle : 0 < length m.inputs → Angle D m x (evaluate D m x)
  unfolding evaluate
  evaluate-Angle h = by_tests (D.below (front D m.inputs) x) (D.below x (back D m.inputs)) refl refl
    where
      by_tests :
          (a b : Bool)
          → D.below (front D m.inputs) x ≡ a
          → D.below x (back D m.inputs) ≡ b
          → Angle D m x (
              if not (D.below (front D m.inputs) x)
              then front D m.outputs
              else if not (D.below x (back D m.inputs))
              then back D m.outputs
              else line D m (upper_bound D x m.inputs - 1) (upper_bound D x m.inputs) x)
      by_tests false b e f = first_row e (rw (e))
      by_tests true false e f = last_row f (rw (e, f))
      by_tests true true e f = rw (e, f) (Enclosed-Angle (inner-Enclosed m.inputs h e f))
