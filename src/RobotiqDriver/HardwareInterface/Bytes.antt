-- ===== src/RobotiqDriver/HardwareInterface/Bytes.antt =====
-- The bytes that `write` of the hardware interface stores for the driver.
use ur5_ros.Common.{ℕ, ◌%◌, ◌≤◌, ◌≡◌, refl, Bool, true, false, if◌then◌else◌, arith}
use ur5_ros.Common.Double.{pos, Double, ByteLaws, min_double, max_double, clamp, to_uint8}
use ur5_ros.RobotiqDriver.HardwareInterface.{
  GripperInterface, position_target, bounded_target, share, share_byte, write,
}

-- A number between 0 and a byte.
record Between (D : Double) (n : ℕ) (z : D.Carrier) : Type 0 where
  number : D.is_nan z ≡ false
  lower : D.below z (D.of_int 0) ≡ false
  upper : D.below (D.of_int n) z ≡ false

-- A byte that is the truncated number, without a loss.
pub record Exact (D : Double) (z : D.Carrier) (byte : ℕ) : Type 0 where
  pub value : D.truncate z ≡ pos byte
  pub bounded : byte ≤ 255

module _ (D : Double) (laws : ByteLaws D) where
  of_int-Between : (m n : ℕ) → m ≤ n → n ≤ 255 → Between D n (D.of_int m)
  of_int-Between m n h k = record {
    number = laws.of_int_number m;
    lower = laws.of_int-le 0 m (omega arith) (omega arith);
    upper = laws.of_int-le m n h k;
  }

  choose :
      {A : Type 0} (b : Bool) (x y : A) (P : A → Type 0)
      → (b ≡ true → P x)
      → (b ≡ false → P y)
      → P (if b then x else y)
  choose true x y P f g = f refl
  choose false x y P f g = g refl

  bounded_target-Between : (x : D.Carrier) → D.is_nan x ≡ false → Between D 255 (bounded_target D x)
  unfolding bounded_target min_double max_double
  bounded_target-Between x h =
      choose (D.below (D.of_int 255) x) (D.of_int 255) x
        (λ (y : D.Carrier). Between D 255 (if D.below y (D.of_int 0) then D.of_int 0 else y))
        (λ e.
          above (D.of_int 255) (laws.of_int_number 255)
            (laws.of_int-le 255 255 (omega arith) (omega arith)))
        (λ e. above x h e)
    where
      above :
          (y : D.Carrier)
          → D.is_nan y ≡ false
          → D.below (D.of_int 255) y ≡ false
          → Between D 255 (if D.below y (D.of_int 0) then D.of_int 0 else y)
      above y number upper =
          choose (D.below y (D.of_int 0)) (D.of_int 0) y (Between D 255)
            (λ e. of_int-Between 0 255 (omega arith) (omega arith))
            (λ e. record { number = number; lower = e; upper = upper })

  share-Between :
      (value limit : D.Carrier)
      → D.is_nan (D.div (D.abs value) limit) ≡ false
      → Between D 1 (share D value limit)
  unfolding share clamp
  share-Between value limit h =
      let ratio : D.Carrier = D.div (D.abs value) limit in
      choose (D.below ratio (D.of_int 0)) (D.of_int 0)
        (if D.below (D.of_int 1) ratio then D.of_int 1 else ratio) (Between D 1)
        (λ e. of_int-Between 0 1 (omega arith) (omega arith))
        (λ e.
          choose (D.below (D.of_int 1) ratio) (D.of_int 1) ratio (Between D 1)
            (λ f. of_int-Between 1 1 (omega arith) (omega arith))
            (λ f. record { number = h; lower = e; upper = f }))

  truncated : (z : D.Carrier) → Between D 255 z → Exact D z (to_uint8 (D.truncate z))
  unfolding to_uint8
  truncated z b =
      let (k, e, h) = laws.truncate_bounded 255 z b.number b.lower b.upper in
      let small : k % 256 ≡ k = omega arith in
      record { value = rw (e, small); bounded = rw (e, small) h }

  share-Exact :
      (value limit : D.Carrier)
      → D.is_nan (D.div (D.abs value) limit) ≡ false
      → Exact D (D.mul (share D value limit) (D.of_int 255)) (share_byte D value limit)
  unfolding share_byte
  share-Exact value limit h =
      let s = share-Between value limit h in
      truncated (D.mul (share D value limit) (D.of_int 255)) (record {
        number = laws.part_number 255 (share D value limit) (omega arith) s.number s.lower s.upper;
        lower = laws.part_nonnegative 255 (share D value limit) s.lower;
        upper = laws.part_most 255 (share D value limit) s.upper;
      })

-- The three numbers of a write, and the bytes that it stores for them.
pub record Written (D : Double) (S : Type 0) (g h : GripperInterface D S) (target : D.Carrier)
    : Type 0 where
  pub command : Exact D (bounded_target D target) h.write_command
  pub speed : Exact D (D.mul (share D g.speed g.max_speed) (D.of_int 255)) h.write_speed
  pub force : Exact D (D.mul (share D g.force g.max_force) (D.of_int 255)) h.write_force

-- Under the laws of the floating-point operations, where neither the position that is asked for nor
-- the shares of the speed and the force are NaN, `write` stores the truncated values of the bounded
-- position and shares: no conversion to a byte leaves its range.
pub write-Written :
    (D : Double) (S : Type 0) (g : GripperInterface D S)
    → ByteLaws D
    → D.is_nan (position_target D g) ≡ false
    → D.is_nan (D.div (D.abs g.speed) g.max_speed) ≡ false
    → D.is_nan (D.div (D.abs g.force) g.max_force) ≡ false
    → Written D S g (write D g) (position_target D g)
unfolding write
write-Written D S g laws position speed force = record {
  command =
      truncated D laws (bounded_target D (position_target D g))
        (bounded_target-Between D laws (position_target D g) position);
  speed = share-Exact D laws g.speed g.max_speed speed;
  force = share-Exact D laws g.force g.max_force force;
}
