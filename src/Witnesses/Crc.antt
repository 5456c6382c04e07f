-- ===== src/Witnesses/Crc.antt =====
-- The theorems on the CRC at the frames of tests/test_crc_utils.cpp.
use ur5_ros.Common.{ℕ, ◌+◌, ◌≡◌, ◌≢◌, some, List, [], ◌∷◌, ◌++◌, arith}
use ur5_ros.Crc.Lookup.{compute_crc}
use ur5_ros.Crc.Bitwise.{rq_com_compute_crc}
use ur5_ros.Crc.Agreement.{swap_bytes, compute_crc-eq}
use ur5_ros.Crc.Detection.{crc_detects_byte}

abbrev short_frame : List ℕ
short_frame = 0x80 ∷ 0x00 ∷ 0x00 ∷ 0x03 ∷ []

compute_crc-eq_example :
    compute_crc short_frame ≡ swap_bytes (rq_com_compute_crc (some short_frame) 4)
compute_crc-eq_example = compute_crc-eq short_frame (omega arith)

crc_detects_byte_example :
    rq_com_compute_crc (some ((0x80 ∷ []) ++ 0x00 ∷ 0x00 ∷ 0x03 ∷ [])) (1 + 3)
    ≢ rq_com_compute_crc (some ((0x80 ∷ []) ++ 0x01 ∷ 0x00 ∷ 0x03 ∷ [])) (1 + 3)
crc_detects_byte_example =
    crc_detects_byte (0x80 ∷ []) (0x00 ∷ 0x03 ∷ []) 0x00 0x01 (omega arith) (omega arith)
      (omega arith) (omega arith) (omega arith)
