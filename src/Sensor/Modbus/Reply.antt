-- ===== src/Sensor/Modbus/Reply.antt =====
-- The reply to a read request is recognised once its last byte has come.
use ur5_ros.Common.{
  ◌==◌, ℕ, ◌+◌, ◌-◌, ◌≡◌, ◌≢◌, ◌≤◌, refl, List, length, All, arith, get_or, some, ◌∷◌, ◌++◌, take,
  ap, drop, ◌∙◌, [], ◌<◌, length-append, ◌*◌, ◌/◌, ◌%◌, get_or-append, sym, false, take-append,
}
use ur5_ros.Crc.Bitwise.{rq_com_compute_crc, byte_loop}
use ur5_ros.Crc.Agreement.{IsByte}
use ur5_ros.Crc.Detection.{crc-lt, byte_loop-append}
use ur5_ros.Sensor.Modbus.{
  Echo, append_crc, settle, clear, read_reply_03, wait_for_fc_03_echo, crc_at,
}

-- The bytes that a sensor answers a read request with.
unfoldable pub reply_frame : List ℕ → List ℕ
reply_frame bytes = append_crc (9 ∷ 3 ∷ length bytes ∷ bytes)

pub settle_new :
    (bytes buffer : List ℕ) (e : Echo)
    → e.buffer ++ bytes ≡ buffer
    → e.old_length ≢ length buffer
    → settle bytes e
      ≡ record { buffer = buffer; old_length = length buffer; counter_no_new_data = 0 }
unfolding settle
settle_new bytes buffer e joined new = rw (joined, different (length buffer) e.old_length new) refl
  where
    different : (a b : ℕ) → b ≢ a → (a == b) ≡ false
    different a b h = ground arith

accepted_reply :
    (e : Echo) (n : ℕ)
    → get_or e.buffer 1 0 ≡ 3
    → get_or e.buffer 2 0 ≡ n
    → length e.buffer ≡ 5 + n
    → 1 ≤ n
    → rq_com_compute_crc (some e.buffer) (length e.buffer - 2) ≡ crc_at e.buffer (length e.buffer)
    → read_reply_03 e ≡ (take n (drop 3 e.buffer), clear e)
unfolding read_reply_03
accepted_reply e n code count size pos crc = ground arith

crc_of_prefix :
    (xs ys : List ℕ)
    → rq_com_compute_crc (some (xs ++ ys)) (length xs) ≡ rq_com_compute_crc (some xs) (length xs)
unfolding rq_com_compute_crc byte_loop
crc_of_prefix xs ys =
    ap (λ n. byte_loop n 0 (xs ++ ys) 0xffff) (omega arith) ∙ byte_loop-append 0 0 xs ys 0xffff

at_index : (buffer : List ℕ) (n m : ℕ) → n ≡ m → get_or buffer n 0 ≡ get_or buffer m 0
at_index buffer n m h = ap (λ k. get_or buffer k 0) h

crc_at-append :
    (frame : List ℕ) (low high : ℕ)
    → crc_at (frame ++ low ∷ high ∷ []) (length frame + 2) ≡ (high * 256 + low) % 65536
crc_at-append frame low high =
    let buffer = frame ++ low ∷ high ∷ [] in
    let first =
      at_index buffer (length frame + 2 - 1) (length frame + 1) (omega arith)
      ∙ get_or-append frame (low ∷ high ∷ []) 1 0 in
    let second =
      at_index buffer (length frame + 2 - 2) (length frame + 0) (omega arith)
      ∙ get_or-append frame (low ∷ high ∷ []) 0 0 in
    rw (first, second) refl

prefix_crc :
    (xs : List ℕ) (low high : ℕ)
    → rq_com_compute_crc (some (xs ++ low ∷ high ∷ [])) (length xs + 2 - 2)
      ≡ rq_com_compute_crc (some xs) (length xs)
prefix_crc xs low high =
    let size : length xs + 2 - 2 ≡ length xs = omega arith in
    ap (rq_com_compute_crc (some (xs ++ low ∷ high ∷ []))) size ∙ crc_of_prefix xs (low ∷ high ∷ [])

-- A frame with its CRC ends with the CRC of what stands before it.
append_crc-crc_at :
    (frame : List ℕ)
    → All IsByte frame
    → rq_com_compute_crc (some (append_crc frame)) (length (append_crc frame) - 2)
      ≡ crc_at (append_crc frame) (length (append_crc frame))
unfolding append_crc
append_crc-crc_at frame bytes =
    let crc = rq_com_compute_crc (some frame) (length frame) in
    let bound = crc-lt frame bytes in
    rw (length-append frame (crc % 256 ∷ crc / 256 ∷ [])) (
      prefix_crc frame (crc % 256) (crc / 256)
      ∙ joined crc bound
      ∙ sym (crc_at-append frame (crc % 256) (crc / 256)))
  where
    joined : (c : ℕ) → c < 65536 → c ≡ (c / 256 * 256 + c % 256) % 65536
    joined c h = omega arith

-- What the checks read of a reply.
pub record ReplyFields (bytes : List ℕ) : Type 0 where
  pub code : get_or (reply_frame bytes) 1 0 ≡ 3
  pub count : get_or (reply_frame bytes) 2 0 ≡ length bytes
  pub size : length (reply_frame bytes) ≡ 5 + length bytes
  content : take (length bytes) (drop 3 (reply_frame bytes)) ≡ bytes
  crc :
      rq_com_compute_crc (some (reply_frame bytes)) (length (reply_frame bytes) - 2)
      ≡ crc_at (reply_frame bytes) (length (reply_frame bytes))

pub reply_frame-fields :
    (bytes : List ℕ) → All IsByte bytes → length bytes ≤ 250 → ReplyFields bytes
unfolding reply_frame append_crc
reply_frame-fields bytes are_bytes u =
    let frame = 9 ∷ 3 ∷ length bytes ∷ bytes in
    let c = rq_com_compute_crc (some frame) (length frame) in
    record {
      code = refl;
      count = refl;
      size = omega (arith, length-append bytes (c % 256 ∷ c / 256 ∷ []));
      content = take-append bytes (c % 256 ∷ c / 256 ∷ []);
      crc = append_crc-crc_at frame (omega arith, (omega arith, (omega arith, are_bytes)));
    }

-- Where the bytes read complete a reply of 1 to 250 bytes of data in the buffer, in whatever
-- portions the others came before, and the length differs from that of the call before, the call
-- returns exactly these bytes of data and clears the buffer.
pub wait_for_fc_03_echo-reply_frame :
    (reply bytes : List ℕ) (e : Echo)
    → All IsByte reply
    → 1 ≤ length reply
    → length reply ≤ 250
    → e.buffer ++ bytes ≡ reply_frame reply
    → e.old_length ≢ length (reply_frame reply)
    → wait_for_fc_03_echo (some bytes) e ≡ (
      reply,
      record { buffer = []; old_length = length (reply_frame reply); counter_no_new_data = 0 },
    )
unfolding wait_for_fc_03_echo clear
wait_for_fc_03_echo-reply_frame reply bytes e are_bytes l u joined new =
    let fields = reply_frame-fields reply are_bytes u in
    let settled : Echo = record {
      buffer = reply_frame reply;
      old_length = length (reply_frame reply);
      counter_no_new_data = 0;
    } in
    rw (settle_new bytes (reply_frame reply) e joined new) (
      accepted_reply settled (length reply) fields.code fields.count fields.size l fields.crc
      ∙ ap {B = List ℕ × Echo} (λ r. (r, clear settled)) fields.content)
