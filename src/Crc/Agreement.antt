-- ===== src/Crc/Agreement.antt =====
-- The two implementations of the CRC agree, up to the order of the two bytes of the result.
use native.Mathlib.Nat.{mod-eq_of_lt}
use ur5_ros.Common.{
  ℕ, suc, ◌+◌, ◌*◌, ◌/◌, ◌%◌, ◌<◌, bit_xor, ◌≡◌, refl, ap, ◌∙◌, arith, ◌==◌, ltb, ◌&&◌, true, some,
  List, [], ◌∷◌, length, get_or, All, all_below, all_below_sound, Bool, sym,
}
use ur5_ros.Common.Bits.{bit_xor_assoc, bit_xor_comm, bit_xor_fields, bit_xor-lt, bit_and-byte}
use ur5_ros.Crc.Tables.{crc_hi_table, crc_lo_table}
use ur5_ros.Crc.Lookup.{CrcState, crc_step, crc_loop, compute_crc}
use ur5_ros.Crc.Bitwise.{bit_step, bit_loop, byte_step, byte_loop, rq_com_compute_crc}
use ur5_ros.Crc.Linear.{bit_loop-xor}

abbrev pub IsByte : ℕ → Type 0
IsByte b = b < 256

pub record IsBytes (s : CrcState) : Type 0 where
  pub hi : s.crc_hi < 256
  pub lo : s.crc_lo < 256

-- The entries at one index are the two bytes of eight bit steps from that index.
table_row : ℕ → Bool
table_row i =
    bit_loop 8 i == get_or crc_lo_table i 0 * 256 + get_or crc_hi_table i 0
    && (ltb (get_or crc_hi_table i 0) 256 && ltb (get_or crc_lo_table i 0) 256)

table_rows : all_below 256 table_row ≡ true
unfolding all_below table_row bit_loop bit_step crc_hi_table crc_lo_table
table_rows = refl

record Row (i : ℕ) : Type 0 where
  steps : bit_loop 8 i ≡ get_or crc_lo_table i 0 * 256 + get_or crc_hi_table i 0
  hi : get_or crc_hi_table i 0 < 256
  lo : get_or crc_lo_table i 0 < 256

row : (i : ℕ) → i < 256 → Row i
unfolding table_row
row i h = let t = all_below_sound 256 table_row table_rows i h in ground (arith, t)

-- The register of the bitwise CRC that a table state stands for.
abbrev pub joined : CrcState → ℕ
joined s = s.crc_hi * 256 + s.crc_lo

crc_step-IsBytes : (s : CrcState) (b : ℕ) → IsBytes s → IsBytes (crc_step s b)
unfolding crc_step
crc_step-IsBytes s b v =
    let r = row (bit_xor s.crc_lo b % 256) (omega arith) in
    record { hi = r.lo; lo = bit_xor-lt 8 s.crc_hi _ v.hi r.hi }

-- The byte meets only the low half of the register.
split_register :
    (hi lo b : ℕ) → lo < 256 → bit_xor (hi * 256 + lo) b ≡ bit_xor (bit_xor lo b) (hi * 256)
split_register hi lo b h =
    rw (← bit_xor_fields 8 hi lo h, bit_xor_assoc) (bit_xor_comm (hi * 256) (bit_xor lo b))

bit_loop-byte :
    (hi lo b : ℕ)
    → lo < 256
    → bit_loop 8 (bit_xor (hi * 256 + lo) b) ≡ bit_xor (bit_loop 8 (bit_xor lo b)) hi
bit_loop-byte hi lo b h =
    ap (bit_loop 8) (split_register hi lo b h) ∙ bit_loop-xor 8 (bit_xor lo b) hi

join_row : (hi x y : ℕ) → y < 256 → hi < 256 → bit_xor (x * 256 + y) hi ≡ x * 256 + bit_xor hi y
join_row hi x y p q =
    rw (← bit_xor_fields 8 x y p, bit_xor_assoc, bit_xor_comm y hi)
      (bit_xor_fields 8 x (bit_xor hi y) (bit_xor-lt 8 hi y q p))

-- One byte of the table algorithm is eight steps of the bitwise one.
joined-crc_step :
    (s : CrcState) (b : ℕ)
    → IsBytes s
    → b < 256
    → joined (crc_step s b) ≡ bit_loop 8 (bit_xor (joined s) b)
unfolding crc_step
joined-crc_step s b v h = rw (mod-eq_of_lt (bit_xor-lt 8 s.crc_lo b v.lo h)) (
    sym (
      bit_loop-byte s.crc_hi s.crc_lo b v.lo
      ∙ rw r.steps
          (join_row s.crc_hi (get_or crc_lo_table i 0) (get_or crc_hi_table i 0) r.hi v.hi)))
  where
    i : ℕ
    i = bit_xor s.crc_lo b

    r : Row i
    r = row i (bit_xor-lt 8 s.crc_lo b v.lo h)

pub byte_step-byte : (j b c : ℕ) → b < 256 → byte_step j b c ≡ bit_loop 8 (bit_xor c b)
unfolding byte_step
byte_step-byte j b c h = ground (arith, bit_and-byte b h)

joined-crc_loop :
    (s : CrcState) (cmd : List ℕ) (j : ℕ)
    → IsBytes s
    → All IsByte cmd
    → (joined (crc_loop s cmd) ≡ byte_loop (length cmd) j cmd (joined s)) × IsBytes (crc_loop s cmd)
unfolding crc_loop byte_loop
joined-crc_loop s [] j v bs = (refl, v)
joined-crc_loop s (b ∷ cmd) j v (h, bs) =
    let next = joined-crc_loop (crc_step s b) cmd (suc j) (crc_step-IsBytes s b v) bs in
    (
      next.0
          ∙ ap (byte_loop (length cmd) (suc j) cmd)
              (joined-crc_step s b v h ∙ sym (byte_step-byte j b (joined s) h)),
      next.1,
    )

-- The two bytes of a 16-bit number, exchanged.
abbrev pub swap_bytes : ℕ → ℕ
swap_bytes c = c % 256 * 256 + c / 256

-- The table algorithm of the gripper driver gives the bitwise CRC of the sensor driver with its two
-- bytes exchanged, on every list of bytes.
pub compute_crc-eq :
    (cmd : List ℕ)
    → All IsByte cmd
    → compute_crc cmd ≡ swap_bytes (rq_com_compute_crc (some cmd) (length cmd))
unfolding compute_crc rq_com_compute_crc
compute_crc-eq cmd bs =
    let (e, v) = joined-crc_loop start cmd 0 (record { hi = omega arith; lo = omega arith }) bs in
    rw (← e) (omega (arith, v.hi, v.lo))
  where
    start : CrcState
    start = record { crc_hi = 0xff; crc_lo = 0xff }
