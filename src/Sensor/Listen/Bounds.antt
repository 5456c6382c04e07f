-- ===== src/Sensor/Listen/Bounds.antt =====
-- The buffer and the timers of rq_com_listen_stream stay within their bounds, and silence is detected.
use ur5_ros.Common.{
  ◌==◌, ℕ, ◌+◌, ◌≤◌, ◌≡◌, refl, Bool, true, false, List, length, arith, Option, some, if◌then◌else◌,
  [], ◌∷◌, drop, none, length-drop, ◌++◌, length-append,
}
use ur5_ros.Common.Double.{ℤ}
use ur5_ros.Sensor.Listen.{
  Sensor, listen_stream, copy_received, accept_message, count_timers, take_offset, receive,
  listen_read, search_message,
}
use ur5_ros.Sensor.Listen.Messages.{Heard, nothing, decoded, damaged, search_message-Heard}

pub record IsBounded {F : Type 0} (s : Sensor F) : Type 0 where
  pub buffer : length s.rcv_buff2 ≤ 1024
  pub detection : s.timer_for_stream_detection ≤ 21
  pub valid : s.timer_for_valid_stream ≤ 41

copied :
    (n : ℕ) (full : Bool) (rest : List ℕ)
    → n ≤ 1024
    → (n == 1024) ≡ full
    → (n + 1 ≤ 1024 → length rest ≤ 1024)
    → length (if full then [] else rest) ≤ 1024
copied n true rest h e more = omega arith
copied n false rest h e more = more (ground (arith, e))

length-copy_received :
    (buffer received : List ℕ)
    → length buffer ≤ 1024
    → length (copy_received buffer received) ≤ 1024
unfolding copy_received
length-copy_received buffer [] h = h
length-copy_received buffer (b ∷ bs) h =
    copied (length buffer) (length buffer == 1024) (copy_received (buffer ++ b ∷ []) bs) h refl
      (λ room.
        length-copy_received (buffer ++ b ∷ []) bs
          (omega (arith, room, length-append buffer (b ∷ []))))

module _ {F : Type 0} (quotient : ℤ → ℕ → F) where
  accepted-IsBounded :
      (valid : Bool) (i : ℕ) (s : Sensor F)
      → IsBounded s
      → IsBounded
          (record (accept_message quotient valid i s) { rcv_buff2 = drop (i + 16) s.rcv_buff2 })
  unfolding accept_message
  accepted-IsBounded true i s b = record {
    buffer = omega (arith, b.buffer, length-drop (i + 16) s.rcv_buff2);
    detection = b.detection;
    valid = omega arith;
  }
  accepted-IsBounded false i s b = record {
    buffer = omega (arith, b.buffer, length-drop (i + 16) s.rcv_buff2);
    detection = b.detection;
    valid = b.valid;
  }

  Heard-IsBounded : (s t : Sensor F) → Heard quotient s t → IsBounded s → IsBounded t
  Heard-IsBounded s _ (nothing no_header) b = b
  Heard-IsBounded s _ (decoded i le h last v) b = record {
    buffer = omega (arith, length-drop (i + 16) s.rcv_buff2, b.buffer);
    detection = b.detection;
    valid = omega arith;
  }
  Heard-IsBounded s _ (damaged i le h last v) b = record {
    buffer = omega (arith, length-drop (i + 16) s.rcv_buff2, b.buffer);
    detection = b.detection;
    valid = b.valid;
  }

  counted-IsBounded : (s : Sensor F) → IsBounded s → IsBounded (count_timers s)
  unfolding count_timers
  counted-IsBounded s b = record {
    buffer = b.buffer;
    detection = ground arith;
    valid = ground arith;
  }

  offset-IsBounded : (s : Sensor F) → IsBounded s → IsBounded (take_offset s)
  unfolding take_offset
  offset-IsBounded s b = by_flag s.zero_force_flag
    where
      by_flag :
          (f : Bool)
          → IsBounded (
              if f
              then record s { zero_force_flag = false; received_data_offset = s.received_data }
              else s)
      by_flag true = record { buffer = b.buffer; detection = b.detection; valid = b.valid }
      by_flag false = b

  received-IsBounded :
      (read : Option (List ℕ)) (s : Sensor F) → IsBounded s → IsBounded (receive read s)
  unfolding receive
  received-IsBounded none s b = b
  received-IsBounded (some []) s b = b
  received-IsBounded (some (x ∷ xs)) s b = record {
    buffer = length-copy_received s.rcv_buff2 (x ∷ xs) b.buffer;
    detection = omega arith;
    valid = b.valid;
  }

  listen_read-IsBounded :
      (read : Option (List ℕ)) (s : Sensor F)
      → IsBounded s
      → IsBounded (listen_read quotient read s)
  unfolding listen_read
  listen_read-IsBounded none s b = b
  listen_read-IsBounded (some []) s b = b
  listen_read-IsBounded (some (x ∷ xs)) s b =
      Heard-IsBounded (receive (some (x ∷ xs)) s)
        (search_message quotient (receive (some (x ∷ xs)) s))
        (search_message-Heard quotient (receive (some (x ∷ xs)) s))
        (received-IsBounded (some (x ∷ xs)) s b)

  -- A call of `listen_stream`, whatever it reads, keeps the second buffer within its 1024 bytes and
  -- the timers at most one above their maxima of 20 and 40, where they were so before.
  pub listen_stream-IsBounded :
      (read : Option (List ℕ)) (s : Sensor F)
      → IsBounded s
      → IsBounded (listen_stream quotient read s)
  unfolding listen_stream
  listen_stream-IsBounded read s b =
      listen_read-IsBounded read (count_timers (take_offset s))
        (counted-IsBounded (take_offset s) (offset-IsBounded s b))
