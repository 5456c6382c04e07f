-- ===== src/Sensor/Listen/Messages.antt =====
-- What the search for a message in the second buffer finds.
use mathlib.Core.Path.{subst}
use ur5_ros.Common.{
  sym, ℕ, ◌+◌, ◌-◌, ◌≤◌, ◌<◌, ◌≡◌, refl, Bool, true, false, length, leb, arith, if◌then◌else◌, drop,
  List, ◌%◌, ◌^◌, ◌*◌, ◌∷◌, [],
}
use ur5_ros.Common.Double.{ℤ}
use ur5_ros.Sensor.Listen.{
  Sensor, Scan, is_header, crc_valid, accept_message, search, drop_message, search_message, efforts,
  effort, int_16,
}
use ur5_ros.Sensor.Listen.Search.{
  Found, no_header, last_header, search-Found, begin, MessageStart, CrcMatches, signed_at,
  is_header-MessageStart, not_header-MessageStart, valid-CrcMatches, invalid-CrcMatches, positive,
  next,
}

module _ {F : Type 0} (quotient : ℤ → ℕ → F) where
  -- What a search leaves of the sensor: nothing was found, or the last header of a message of 16 bytes
  -- in the buffer, which is taken off together with all before it and counted; with a valid CRC it is
  -- decoded, with another one nothing else changes.
  pub data Heard (s : Sensor F) : Sensor F → Type 0 where
    nothing : ((i : ℕ) → i + 16 ≤ length s.rcv_buff2 → ¬ MessageStart s.rcv_buff2 i) → Heard s s
    decoded :
        (i : ℕ)
        → i + 16 ≤ length s.rcv_buff2
        → MessageStart s.rcv_buff2 i
        → ((k : ℕ) → i < k → k + 16 ≤ length s.rcv_buff2 → ¬ MessageStart s.rcv_buff2 k)
        → CrcMatches s.rcv_buff2 i
        → Heard s (record s {
          rcv_buff2 = drop (i + 16) s.rcv_buff2;
          msg_received = (s.msg_received + 1) % 2 ^ 32;
          received_data =
              quotient (signed_at s.rcv_buff2 (i + 2)) 100
              ∷ quotient (signed_at s.rcv_buff2 (i + 4)) 100
              ∷ quotient (signed_at s.rcv_buff2 (i + 6)) 100
              ∷ quotient (signed_at s.rcv_buff2 (i + 8)) 1000
              ∷ quotient (signed_at s.rcv_buff2 (i + 10)) 1000
              ∷ quotient (signed_at s.rcv_buff2 (i + 12)) 1000
              ∷ [];
          valid_stream = true;
          new_message = true;
          timer_for_valid_stream = 0;
          sensor_watchdog = true;
        })
    damaged :
        (i : ℕ)
        → i + 16 ≤ length s.rcv_buff2
        → MessageStart s.rcv_buff2 i
        → ((k : ℕ) → i < k → k + 16 ≤ length s.rcv_buff2 → ¬ MessageStart s.rcv_buff2 k)
        → ¬ CrcMatches s.rcv_buff2 i
        → Heard s (record s {
          rcv_buff2 = drop (i + 16) s.rcv_buff2;
          msg_received = (s.msg_received + 1) % 2 ^ 32;
        })

  drop_scanned :
      (s : Sensor F) (i : ℕ) (valid : Bool)
      → drop_message quotient
          (record { sensor = accept_message quotient valid i s; last_byte = i + 15; found = true })
        ≡ record (accept_message quotient valid i s) { rcv_buff2 = drop (i + 16) s.rcv_buff2 }
  unfolding drop_message accept_message
  drop_scanned s i true = rw (positive i, next i) refl
  drop_scanned s i false = rw (positive i, next i) refl

  effort-signed_at :
      (buffer : List ℕ) (i j at divisor : ℕ)
      → i + 2 + 2 * j ≡ at
      → effort quotient buffer i j divisor ≡ quotient (signed_at buffer at) divisor
  unfolding effort int_16
  effort-signed_at buffer i j at divisor e =
      let low : i + 2 + 2 * j ≡ at = e in
      let high : i + 3 + 2 * j ≡ at + 1 = omega arith in rw (low, high) refl

  six_words :
      (i : ℕ) (buffer : List ℕ)
      → efforts quotient buffer i
        ≡ quotient (signed_at buffer (i + 2)) 100
          ∷ quotient (signed_at buffer (i + 4)) 100
          ∷ quotient (signed_at buffer (i + 6)) 100
          ∷ quotient (signed_at buffer (i + 8)) 1000
          ∷ quotient (signed_at buffer (i + 10)) 1000
          ∷ quotient (signed_at buffer (i + 12)) 1000
          ∷ []
  unfolding efforts
  six_words i buffer = simp (
    effort-signed_at buffer i 0 (i + 2) 100 (omega arith),
    effort-signed_at buffer i 1 (i + 4) 100 (omega arith),
    effort-signed_at buffer i 2 (i + 6) 100 (omega arith),
    effort-signed_at buffer i 3 (i + 8) 1000 (omega arith),
    effort-signed_at buffer i 4 (i + 10) 1000 (omega arith),
    effort-signed_at buffer i 5 (i + 12) 1000 (omega arith),
  )

  last-Heard :
      (s : Sensor F) (i : ℕ) (valid : Bool)
      → crc_valid s.rcv_buff2 i ≡ valid
      → i + 16 ≤ length s.rcv_buff2
      → is_header s.rcv_buff2 i ≡ true
      → ((k : ℕ) → i < k → k + 16 ≤ length s.rcv_buff2 → is_header s.rcv_buff2 k ≡ false)
      → Heard s
          (record (accept_message quotient valid i s) { rcv_buff2 = drop (i + 16) s.rcv_buff2 })
  unfolding accept_message
  last-Heard s i true v le h none_after = rw (six_words i s.rcv_buff2) (
      decoded i le (is_header-MessageStart s.rcv_buff2 i h)
        (λ k above l. not_header-MessageStart s.rcv_buff2 k (none_after k above l))
        (valid-CrcMatches s.rcv_buff2 i v))
  last-Heard s i false v le h none_after =
      damaged i le (is_header-MessageStart s.rcv_buff2 i h)
        (λ k above l. not_header-MessageStart s.rcv_buff2 k (none_after k above l))
        (invalid-CrcMatches s.rcv_buff2 i v)

  Found-Heard :
      (s : Sensor F) (n : ℕ) (scan : Scan F)
      → n + 15 ≡ length s.rcv_buff2
      → Found quotient s n scan
      → Heard s (drop_message quotient scan)
  unfolding drop_message
  Found-Heard s n _ size (no_header none_below) =
      nothing (λ i le. not_header-MessageStart s.rcv_buff2 i (none_below i (omega (arith, size))))
  Found-Heard s n _ size (last_header i lt h none_between) =
      subst (Heard s) (sym (drop_scanned s i (crc_valid s.rcv_buff2 i))) (
        last-Heard s i (crc_valid s.rcv_buff2 i) refl (omega (arith, size)) h
          (λ k above le. none_between k above (omega (arith, size))))

  -- `search_message` finds the last header, 0x20 0x4e, that begins a message of 16 bytes in the buffer,
  -- if there is one; it counts the message and takes it off the buffer with all before it. Where the CRC
  -- of its first 14 bytes is the one at its end, the six values become its six signed words, divided
  -- by 100 for the forces and by 1000 for the moments, the stream is valid and the message new; where
  -- it is not, nothing else changes. Without a header nothing changes.
  pub search_message-Heard : (s : Sensor F) → Heard s (search_message quotient s)
  unfolding search_message
  search_message-Heard s = enough (leb 16 (length s.rcv_buff2)) refl
    where
      enough :
          (b : Bool)
          → leb 16 (length s.rcv_buff2) ≡ b
          → Heard s (
              if b
              then drop_message quotient
                  (search quotient (length s.rcv_buff2 - 15) (begin quotient s))
              else s)
      enough true e =
          Found-Heard s (length s.rcv_buff2 - 15)
            (search quotient (length s.rcv_buff2 - 15) (begin quotient s)) (ground (arith, e))
            (search-Found quotient s (length s.rcv_buff2 - 15))
      enough false e = nothing (λ i le. absurd (ground (arith, e)))
