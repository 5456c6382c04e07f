-- ===== src/Sensor/Listen/Search.antt =====
-- How the search for a message in the second buffer goes, and what a message is.
use ur5_ros.Crc.Bitwise.{rq_com_compute_crc}
use mathlib.Core.Path.{subst}
use ur5_ros.Common.{
  ap, sym, inl, inr, ℕ, zero, suc, ◌+◌, ◌-◌, ◌<◌, ◌≡◌, refl, Bool, true, false, ltb, arith,
  if◌then◌else◌, ◌&&◌, not, ◌⊎◌, drop, ◌∙◌, List, ◌%◌, get_or, and-both, ==→eq, some, ◌*◌, ◌==◌,
}
use ur5_ros.Common.Double.{ℤ, pos, negsuc}
use ur5_ros.Sensor.Listen.{
  Sensor, Scan, is_header, crc_valid, accept_message, scan_at, search, rq_com_compute_crc,
}

below_or_at : (n i : ℕ) → i < suc n → (i < n) ⊎ (i ≡ n)
below_or_at n i lt = ground arith

pub positive : (i : ℕ) → ltb 0 (i + 15) ≡ true
positive i = ground arith

pub next : (i : ℕ) → i + 15 + 1 ≡ i + 16
next i = omega arith

-- The two bytes that begin a message.
abbrev pub MessageStart : List ℕ → ℕ → Type 0
MessageStart buffer i = (get_or buffer i 0 ≡ 0x20) × (get_or buffer (i + 1) 0 ≡ 0x4e)

-- The CRC of the first 14 bytes of a message is the one in its last two, low byte first.
abbrev pub CrcMatches : List ℕ → ℕ → Type 0
CrcMatches buffer i =
    rq_com_compute_crc (some (drop i buffer)) 14
    ≡ (get_or buffer (i + 14) 0 + get_or buffer (i + 15) 0 * 256) % 65536

-- The signed word of 16 bits at an index, low byte first.
abbrev pub signed_at : List ℕ → ℕ → ℤ
signed_at buffer i =
    let word = (get_or buffer i 0 + get_or buffer (i + 1) 0 * 256) % 65536 in
    if ltb word 32768 then pos word else negsuc (65535 - word)

pub is_header-MessageStart :
    (buffer : List ℕ) (i : ℕ) → is_header buffer i ≡ true → MessageStart buffer i
unfolding is_header
is_header-MessageStart buffer i h =
    let (first, second) =
      and-both (get_or buffer i 0 == 0x20) (get_or buffer (i + 1) 0 == 0x4e) h in
    (==→eq (get_or buffer i 0) 0x20 first, ==→eq (get_or buffer (i + 1) 0) 0x4e second)

pub not_header-MessageStart :
    (buffer : List ℕ) (i : ℕ) → is_header buffer i ≡ false → ¬ MessageStart buffer i
unfolding is_header
not_header-MessageStart buffer i h e = absurd (ground (arith, h, e.0, e.1))

pub valid-CrcMatches : (buffer : List ℕ) (i : ℕ) → crc_valid buffer i ≡ true → CrcMatches buffer i
unfolding crc_valid
valid-CrcMatches buffer i h =
    ==→eq (rq_com_compute_crc (some (drop i buffer)) 14)
      ((get_or buffer (i + 14) 0 + get_or buffer (i + 15) 0 * 256) % 65536) h

pub invalid-CrcMatches :
    (buffer : List ℕ) (i : ℕ) → crc_valid buffer i ≡ false → ¬ CrcMatches buffer i
unfolding crc_valid
invalid-CrcMatches buffer i h e = absurd (ground (arith, h, e))

module _ {F : Type 0} (quotient : ℤ → ℕ → F) where
  -- The search over the indices below a bound: no header there, or the last one.
  pub data Found (s : Sensor F) : ℕ → Scan F → Type 0 where
    no_header :
        {n : ℕ}
        → ((i : ℕ) → i < n → is_header s.rcv_buff2 i ≡ false)
        → Found s n (record { sensor = s; last_byte = 0; found = false })
    last_header :
        {n : ℕ} (i : ℕ)
        → i < n
        → is_header s.rcv_buff2 i ≡ true
        → ((k : ℕ) → i < k → k < n → is_header s.rcv_buff2 k ≡ false)
        → Found s n (record {
          sensor = accept_message quotient (crc_valid s.rcv_buff2 i) i s;
          last_byte = i + 15;
          found = true;
        })

  skipped :
      {A : Type 0} (x y : A) (b found : Bool) → found ≡ true → (if b && not found then x else y) ≡ y
  skipped x y true true h = refl
  skipped x y false true h = refl
  skipped x y b false h = absurd (cc)

  scan_at-found : (i : ℕ) (scan : Scan F) → scan.found ≡ true → scan_at quotient i scan ≡ scan
  unfolding scan_at
  scan_at-found i scan h =
      skipped
        (record {
          sensor = accept_message quotient (crc_valid scan.sensor.rcv_buff2 i) i scan.sensor;
          last_byte = i + 15;
          found = true;
        })
        scan (is_header scan.sensor.rcv_buff2 i) scan.found h

  search-found : (n : ℕ) (scan : Scan F) → scan.found ≡ true → search quotient n scan ≡ scan
  unfolding search
  search-found zero scan h = refl
  search-found (suc n) scan h =
      ap (search quotient n) (scan_at-found n scan h) ∙ search-found n scan h

  abbrev pub begin : Sensor F → Scan F
  begin s = record { sensor = s; last_byte = 0; found = false }

  abbrev pub scanned : Sensor F → ℕ → Scan F
  scanned s i = record {
    sensor = accept_message quotient (crc_valid s.rcv_buff2 i) i s;
    last_byte = i + 15;
    found = true;
  }

  scan_at-header :
      (s : Sensor F) (n : ℕ)
      → is_header s.rcv_buff2 n ≡ true
      → scan_at quotient n (begin s) ≡ scanned s n
  unfolding scan_at
  scan_at-header s n e = rw (e) refl

  scan_at-no_header :
      (s : Sensor F) (n : ℕ)
      → is_header s.rcv_buff2 n ≡ false
      → scan_at quotient n (begin s) ≡ begin s
  unfolding scan_at
  scan_at-no_header s n e = rw (e) refl

  widened :
      (s : Sensor F) (n : ℕ) (scan : Scan F)
      → is_header s.rcv_buff2 n ≡ false
      → Found s n scan
      → Found s (suc n) scan
  widened s n _ e (no_header none_below) =
      no_header (λ i lt. elim (below_or_at n i lt) [ inl l ↦ none_below i l | inr at ↦ rw (at) e ])
  widened s n _ e (last_header i lt h none_between) = last_header i (omega arith) h (λ k above k_lt.
      elim (below_or_at n k k_lt) [ inl l ↦ none_between k above l | inr at ↦ rw (at) e ])

  next-Found :
      (s : Sensor F) (n : ℕ) (b : Bool)
      → is_header s.rcv_buff2 n ≡ b
      → Found s n (search quotient n (begin s))
      → Found s (suc n) (search quotient n (scan_at quotient n (begin s)))
  next-Found s n true e before =
      subst (Found s (suc n))
        (sym (ap (search quotient n) (scan_at-header s n e) ∙ search-found n (scanned s n) refl))
        (last_header n (omega arith) e (λ k above lt. absurd (omega arith)))
  next-Found s n false e before =
      subst (λ z. Found s (suc n) (search quotient n z)) (sym (scan_at-no_header s n e))
        (widened s n (search quotient n (begin s)) e before)

  pub search-Found : (s : Sensor F) (n : ℕ) → Found s n (search quotient n (begin s))
  unfolding search
  search-Found s zero = no_header (λ i lt. absurd (omega arith))
  search-Found s (suc n) = next-Found s n (is_header s.rcv_buff2 n) refl (search-Found s n)
