-- ===== src/Sensor/Listen/Silence.antt =====
-- rq_com_listen_stream notices that the stream has stopped.
use ur5_ros.Common.{
  ℕ, zero, suc, ◌+◌, ◌≤◌, ◌≡◌, refl, Bool, true, false, arith, some, if◌then◌else◌, [], ◌∙◌, ◌⊎◌,
  inl, inr,
}
use ur5_ros.Common.Double.{ℤ}
use ur5_ros.Sensor.Listen.{Sensor, listen_stream, count_timers, take_offset, listen_read}

late_or_early : (t : ℕ) → (21 ≤ t) ⊎ (t ≤ 20)
late_or_early t = ground arith

module _ {F : Type 0} (quotient : ℤ → ℕ → F) where
  -- Calls of `listen_stream` that read nothing.
  abbrev pub silent : ℕ → Sensor F → Sensor F
  silent zero s = s
  silent (suc n) s = silent n (listen_stream quotient (some []) s)

  silent_call : (s : Sensor F) → listen_stream quotient (some []) s ≡ count_timers (take_offset s)
  unfolding listen_stream listen_read
  silent_call s = refl

  offset_keeps :
      (s : Sensor F)
      → ((take_offset s).timer_for_stream_detection ≡ s.timer_for_stream_detection)
        × ((take_offset s).stream_detected ≡ s.stream_detected)
  unfolding take_offset
  offset_keeps s = by_flag s.zero_force_flag
    where
      by_flag :
          (f : Bool)
          → let t =
              (if f
                then record s { zero_force_flag = false; received_data_offset = s.received_data }
                else s) in
            (t.timer_for_stream_detection ≡ s.timer_for_stream_detection)
            × (t.stream_detected ≡ s.stream_detected)
      by_flag true = (refl, refl)
      by_flag false = (refl, refl)

  counted_timer :
      (s : Sensor F)
      → s.timer_for_stream_detection ≤ 20
      → (count_timers s).timer_for_stream_detection ≡ s.timer_for_stream_detection + 1
  unfolding count_timers
  counted_timer s h = ground arith

  counted_out :
      (s : Sensor F) → 21 ≤ s.timer_for_stream_detection → (count_timers s).stream_detected ≡ false
  unfolding count_timers
  counted_out s h = ground arith

  counted_undetected :
      (s : Sensor F) → s.stream_detected ≡ false → (count_timers s).stream_detected ≡ false
  unfolding count_timers
  counted_undetected s h = ground arith

  silent_undetected :
      (n : ℕ) (s : Sensor F) → s.stream_detected ≡ false → (silent n s).stream_detected ≡ false
  silent_undetected zero s h = h
  silent_undetected (suc n) s h =
      silent_undetected n (listen_stream quotient (some []) s)
        (rw (silent_call s) (counted_undetected (take_offset s) ((offset_keeps s).1 ∙ h)))

  counted_late :
      (s : Sensor F)
      → 21 ≤ s.timer_for_stream_detection
      → (listen_stream quotient (some []) s).stream_detected ≡ false
  counted_late s h =
      rw (silent_call s) (counted_out (take_offset s) (omega (arith, (offset_keeps s).0)))

  counted_early :
      (s : Sensor F)
      → s.timer_for_stream_detection ≤ 20
      → (listen_stream quotient (some []) s).timer_for_stream_detection
        ≡ s.timer_for_stream_detection + 1
  counted_early s h = rw (silent_call s) (
      counted_timer (take_offset s) (omega (arith, (offset_keeps s).0))
      ∙ rw ((offset_keeps s).0) refl)

  -- After n calls that read nothing, where n is at least 1 and n and the timer together are at
  -- least 22, the stream no longer counts as detected.
  pub silence_detected :
      (n : ℕ) (s : Sensor F)
      → 22 ≤ n + s.timer_for_stream_detection
      → 1 ≤ n
      → (silent n s).stream_detected ≡ false
  silence_detected zero s h l = absurd (omega arith)
  silence_detected (suc n) s h l = elim (late_or_early s.timer_for_stream_detection) [
    | inl late ↦ silent_undetected n (listen_stream quotient (some []) s) (counted_late s late)
    | inr early ↦
        silence_detected n (listen_stream quotient (some []) s)
          (omega (arith, counted_early s early)) (omega arith)
  ]
