-- ===== src/Sensor/Modbus.antt =====
-- The Modbus RTU requests and replies of robotiq_ft_sensor_hardware/src/rq_sensor_com.cpp. What a
-- read of the port gives is a parameter: `none` for an error, or the bytes. The contents of an array
-- on the stack before it is written are parameters too.
pub mod Check
pub mod Reply
pub mod Portions
use ur5_ros.Common.{
  ℕ, zero, suc, ◌+◌, ◌*◌, ◌-◌, ◌/◌, ◌%◌, Bool, true, false, ◌==◌, ◌!=◌, leb, ltb, if◌then◌else◌,
  List, [], ◌∷◌, ◌++◌, length, get_or, take, drop, Option, some, none,
}
use ur5_ros.Crc.Bitwise.{rq_com_compute_crc}

unfoldable pub append_crc : List ℕ → List ℕ
append_crc frame =
    let crc = rq_com_compute_crc (some frame) (length frame) in
    frame ++ (crc % 256) ∷ (crc / 256) ∷ []

-- An odd number of bytes is rounded up.
abbrev pub even : ℕ → ℕ
even n = if n % 2 != 0 then n + 1 else n

unfoldable pub fc_03_request : ℕ → ℕ → List ℕ
fc_03_request base n = append_crc (
    9
    ∷ 3
    ∷ (base / 256 % 256)
    ∷ (base % 256)
    ∷ (even n % 65536 / 2 / 256 % 256)
    ∷ (even n % 65536 / 2 % 256)
    ∷ [])

-- `bytes` are the n bytes of the data.
unfoldable pub fc_16_request : ℕ → List ℕ → List ℕ
fc_16_request base bytes =
    let n = length bytes in
    append_crc (
      9
      ∷ 16
      ∷ (base / 256 % 256)
      ∷ (base % 256)
      ∷ (even n / 2 / 256 % 256)
      ∷ (even n / 2 % 256)
      ∷ (even n % 256)
      ∷ (bytes ++ (if n != even n then 0 ∷ [] else [])))

-- The static variables of one of the two functions that wait for a reply; `buffer` holds `length` bytes.
pub record Echo : Type 0 where
  pub buffer : List ℕ
  pub old_length : ℕ
  pub counter_no_new_data : ℕ

-- The bytes read are appended; while the length stays the same the calls are counted, and after five
-- of them the buffer is cleared.
unfoldable pub settle : List ℕ → Echo → Echo
settle bytes e =
    let buffer = e.buffer ++ bytes in
    if length buffer == e.old_length
    then if ltb e.counter_no_new_data 5
      then record {
        buffer = buffer;
        old_length = length buffer;
        counter_no_new_data = e.counter_no_new_data + 1;
      }
      else record { buffer = []; old_length = 0; counter_no_new_data = e.counter_no_new_data }
    else record { buffer = buffer; old_length = length buffer; counter_no_new_data = 0 }

-- The 16 bits at the end of the first `n` bytes, low byte first.
abbrev pub crc_at : List ℕ → ℕ → ℕ
crc_at buffer n = (get_or buffer (n - 1) 0 * 256 + get_or buffer (n - 2) 0) % 65536

unfoldable pub clear : Echo → Echo
clear e = record e { buffer = [] }

-- The reply in the buffer: the bytes of its data, none of them for a returned 0.
unfoldable pub read_reply_03 : Echo → List ℕ × Echo
unfolding clear
read_reply_03 e =
    let n = get_or e.buffer 2 0 in
    if leb (length e.buffer) 5
    then ([], e)
    else if get_or e.buffer 1 0 != 3
    then ([], clear e)
    else if ltb (length e.buffer) (5 + n)
    then ([], e)
    else if rq_com_compute_crc (some e.buffer) (length e.buffer - 2)
        != crc_at e.buffer (length e.buffer)
    then ([], clear e)
    else (take n (drop 3 e.buffer), clear e)

abbrev pub bytes_of : Option (List ℕ) → List ℕ
bytes_of none = []
bytes_of (some bytes) = bytes

unfoldable pub wait_for_fc_03_echo : Option (List ℕ) → Echo → List ℕ × Echo
wait_for_fc_03_echo read e = read_reply_03 (settle (bytes_of read) e)

-- A read that fails is not covered here: the code then subtracts 1 from its length.
unfoldable pub read_reply_16 : Echo → Bool × Echo
unfolding clear
read_reply_16 e =
    if ltb (length e.buffer) 8
    then (false, e)
    else if get_or e.buffer 1 0 == 16
    then (rq_com_compute_crc (some e.buffer) 6 == crc_at e.buffer 8, clear e)
    else (false, clear e)

unfoldable pub wait_for_fc_16_echo : List ℕ → Echo → Bool × Echo
wait_for_fc_16_echo read e = read_reply_16 (settle read e)

abbrev pub answered : List ℕ × Echo → (Echo → List ℕ × Echo) → List ℕ × Echo
answered ([], e) again = again e
answered (b ∷ bs, e) again = (b ∷ bs, e)

abbrev pub confirmed : Bool × Echo → (Echo → Bool × Echo) → Bool × Echo
confirmed (false, e) again = again e
confirmed (true, e) again = (true, e)

-- The loop of send_fc_03, with the tries that are left and the number of those made; `reads` gives
-- what each finds.
unfoldable pub tries_03 : ℕ → ℕ → (ℕ → Option (List ℕ)) → Echo → List ℕ × Echo
tries_03 zero made reads e = ([], e)
tries_03 (suc left) made reads e =
    answered (wait_for_fc_03_echo (reads made) e) (λ e'. tries_03 left (made + 1) reads e')

-- The first `k` words of a list of bytes.
unfoldable pub to_words : ℕ → List ℕ → List ℕ
to_words zero bytes = []
to_words (suc k) bytes =
    ((get_or bytes 0 0 * 256 + get_or bytes 1 0) % 65536) ∷ to_words k (drop 2 bytes)

-- The words of the bytes that were read, `none` for the returned -1. `request_array` is what the array
-- for the bytes held before; a reply of more than its n bytes is written past its end, which is not
-- covered.
unfoldable pub read_words : ℕ → List ℕ → List ℕ × Echo → Option (List ℕ) × Echo
read_words n request_array ([], e) = (none, e)
read_words n request_array (b ∷ bs, e) =
    (some (to_words (n / 2) ((b ∷ bs) ++ drop (length (b ∷ bs)) request_array)), e)

-- The bytes written to the port, the words and what the tries leave.
unfoldable pub send_fc_03 :
    (base n : ℕ) → List ℕ → (ℕ → Option (List ℕ)) → Echo → List ℕ × Option (List ℕ) × Echo
send_fc_03 base n request_array reads e =
    let (result, left) = read_words n request_array (tries_03 100 0 reads e) in
    (fc_03_request base n, result, left)

-- The bytes of words, high byte first; `n` of them are wanted.
unfoldable pub word_bytes : ℕ → List ℕ → List ℕ
word_bytes zero words = []
word_bytes (suc zero) words = (get_or words 0 0 / 256 % 256) ∷ []
word_bytes (suc (suc n)) words =
    (get_or words 0 0 / 256 % 256) ∷ (get_or words 0 0 % 256) ∷ word_bytes n (drop 1 words)

unfoldable pub tries_16 : ℕ → ℕ → (ℕ → List ℕ) → Echo → Bool × Echo
tries_16 zero made reads e = (false, e)
tries_16 (suc left) made reads e =
    confirmed (wait_for_fc_16_echo (reads made) e) (λ e'. tries_16 left (made + 1) reads e')

-- Whether 0 is returned, not -1.
unfoldable pub send_fc_16 : (ℕ → List ℕ) → Echo → Bool × Echo
send_fc_16 reads e = tries_16 100 0 reads e

unfoldable pub fc_16_frame : ℕ → ℕ → List ℕ → List ℕ
fc_16_frame base n words = fc_16_request base (word_bytes n words)
