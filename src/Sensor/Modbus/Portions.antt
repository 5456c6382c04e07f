-- ===== src/Sensor/Modbus/Portions.antt =====
-- A read request whose reply comes in portions.
use mathlib.Core.Path.{subst}
use native.Mathlib.Decide.{dec_le}
use ur5_ros.Common.{
  ℕ, zero, suc, ◌+◌, ◌*◌, ◌/◌, ◌%◌, ◌≤◌, ◌<◌, ◌≡◌, ◌≢◌, refl, ap, sym, ◌∙◌, List, [], ◌∷◌, ◌++◌,
  append_assoc, append-nil, length, length-append, get_or, drop, All, Option, some, arith,
}
use ur5_ros.Crc.Agreement.{IsByte}
use ur5_ros.Sensor.Modbus.{
  Echo, read_reply_03, wait_for_fc_03_echo, tries_03, send_fc_03, to_words, word_bytes, read_words,
  fc_03_request,
}
use ur5_ros.Sensor.Modbus.Reply.{
  reply_frame, settle_new, reply_frame-fields, wait_for_fc_03_echo-reply_frame,
}

-- The reads from a try on find the portions, none of which is empty.
unfoldable pub Delivers : (ℕ → Option (List ℕ)) → ℕ → List (List ℕ) → Type 0
Delivers reads made [] = Unit {0}
Delivers reads made (p ∷ ps) = (reads made ≡ some p) × (1 ≤ length p) × Delivers reads (made + 1) ps

unfoldable pub joined : List (List ℕ) → List ℕ
joined [] = []
joined (p ∷ ps) = p ++ joined ps

get_or-prefix : (xs ys : List ℕ) (i : ℕ) → i < length xs → get_or xs i 0 ≡ get_or (xs ++ ys) i 0
get_or-prefix [] ys i h = absurd (omega arith)
get_or-prefix (x ∷ xs) ys zero h = refl
get_or-prefix (x ∷ xs) ys (suc i) h = get_or-prefix xs ys i (omega arith)

-- A buffer that holds a part of a reply is kept.
incomplete :
    (e : Echo) (n : ℕ)
    → (5 < length e.buffer → (get_or e.buffer 1 0 ≡ 3) × (get_or e.buffer 2 0 ≡ n))
    → length e.buffer < 5 + n
    → read_reply_03 e ≡ ([], e)
unfolding read_reply_03
incomplete e n fields short = elim (dec_le (length e.buffer) 5) [
  | yes l ↦ ground arith
  | no l ↦ let (code, count) = fields (omega arith) in ground arith
]

-- The first words of a reply are the words it was made of.
twice : ℕ → ℕ
twice zero = 0
twice (suc k) = suc (suc (twice k))

twice-eq : (k : ℕ) → twice k ≡ k * 2
unfolding twice
twice-eq zero = omega arith
twice-eq (suc k) = omega (arith, twice-eq k)

to_words-word_bytes :
    (words rest : List ℕ)
    → All (λ (w : ℕ). w < 65536) words
    → to_words (length words) (word_bytes (twice (length words)) words ++ rest) ≡ words
unfolding to_words word_bytes twice
to_words-word_bytes [] rest h = refl
to_words-word_bytes (w ∷ words) rest h =
    let bound : w < 65536 = h.0 in
    let first : (w / 256 % 256 * 256 + w % 256) % 65536 ≡ w = omega arith in
    rw (first, to_words-word_bytes words rest h.1)

IsByte-word_bytes : (k : ℕ) (words : List ℕ) → All IsByte (word_bytes k words)
unfolding word_bytes
IsByte-word_bytes zero words = tt
IsByte-word_bytes (suc zero) words = (omega arith, tt)
IsByte-word_bytes (suc (suc n)) words =
    (omega arith, (omega arith, IsByte-word_bytes n (drop 1 words)))

length-word_bytes : (k : ℕ) (words : List ℕ) → length (word_bytes k words) ≡ k
unfolding word_bytes
length-word_bytes zero words = refl
length-word_bytes (suc zero) words = omega arith
length-word_bytes (suc (suc n)) words = omega (arith, length-word_bytes n (drop 1 words))

-- A portion that leaves the reply incomplete is kept, and the call returns nothing.
wait_for_fc_03_echo-portion :
    (reply p rest : List ℕ) (e : Echo)
    → All IsByte reply
    → length reply ≤ 250
    → 1 ≤ length rest
    → (e.buffer ++ p) ++ rest ≡ reply_frame reply
    → e.old_length ≢ length (e.buffer ++ p)
    → wait_for_fc_03_echo (some p) e ≡ (
      [],
      record {
        buffer = e.buffer ++ p;
        old_length = length (e.buffer ++ p);
        counter_no_new_data = 0;
      },
    )
unfolding wait_for_fc_03_echo
wait_for_fc_03_echo-portion reply p rest e are_bytes u more whole new =
    let buffer = e.buffer ++ p in
    let f = reply_frame-fields reply are_bytes u in
    let size : length buffer + length rest ≡ length (reply_frame reply) =
      sym (length-append buffer rest) ∙ ap {A = List ℕ} length whole in
    let total : length (reply_frame reply) ≡ 5 + length reply = f.size in
    let field = λ (i : ℕ) (h : i < length buffer).
      get_or-prefix buffer rest i h ∙ ap (λ (xs : List ℕ). get_or xs i 0) whole in
    rw (settle_new p buffer e refl new) (
      incomplete (record { buffer = buffer; old_length = length buffer; counter_no_new_data = 0 })
        (length reply)
        (λ (h : 5 < length buffer).
          (field 1 (omega arith) ∙ f.code, field 2 (omega arith) ∙ f.count))
        (omega arith))

-- The echo after a whole reply.
abbrev pub after_reply : List ℕ → Echo
after_reply reply = record {
  buffer = [];
  old_length = length (reply_frame reply);
  counter_no_new_data = 0;
}

tries_03-reply :
    (left made : ℕ) (reads : ℕ → Option (List ℕ)) (p : List ℕ) (ps : List (List ℕ)) (e : Echo)
    (b : ℕ) (reply : List ℕ)
    → All IsByte (b ∷ reply)
    → length (b ∷ reply) ≤ 250
    → Delivers reads made (p ∷ ps)
    → e.buffer ++ joined (p ∷ ps) ≡ reply_frame (b ∷ reply)
    → e.old_length ≢ length (e.buffer ++ p)
    → length (p ∷ ps) ≤ left
    → tries_03 left made reads e ≡ (b ∷ reply, after_reply (b ∷ reply))
unfolding tries_03 Delivers joined
tries_03-reply zero made reads p ps e b reply are_bytes u d whole new enough = absurd (omega arith)
tries_03-reply (suc left) made reads p [] e b reply are_bytes u d whole new enough =
    let complete : e.buffer ++ p ≡ reply_frame (b ∷ reply) =
      ap (λ (xs : List ℕ). e.buffer ++ xs) (sym (append-nil p)) ∙ whole in
    rw (
      d.0,
      wait_for_fc_03_echo-reply_frame (b ∷ reply) p e are_bytes (omega arith) u complete
          (λ q. new (q ∙ ap {A = List ℕ} length (sym complete))),
    )
tries_03-reply (suc left) made reads p (q ∷ qs) e b reply are_bytes u d whole new enough =
    let grouped : (e.buffer ++ p) ++ joined (q ∷ qs) ≡ reply_frame (b ∷ reply) =
      append_assoc e.buffer p (q ++ joined qs) ∙ whole in
    let next : Echo = record {
      buffer = e.buffer ++ p;
      old_length = length (e.buffer ++ p);
      counter_no_new_data = 0;
    } in
    let some_more : 1 ≤ length q = d.2.1 in
    let size = length-append q (joined qs) in
    let longer = length-append (e.buffer ++ p) q in
    rw
      (
        d.0,
        wait_for_fc_03_echo-portion (b ∷ reply) p (q ++ joined qs) e are_bytes u (omega arith)
            grouped new,
      )
      (tries_03-reply left (made + 1) reads q qs next b reply are_bytes u d.2 grouped (omega arith)
        (omega arith))

-- The bytes of at least one word, in the shape of a reply that is not empty.
send_fc_03-twice :
    (base : ℕ) (words request_array : List ℕ) (reads : ℕ → Option (List ℕ)) (p : List ℕ)
    (ps : List (List ℕ)) (e : Echo)
    → All (λ (w : ℕ). w < 65536) words
    → 1 ≤ length words
    → length words ≤ 125
    → e.buffer ≡ []
    → e.old_length ≢ length p
    → Delivers reads 0 (p ∷ ps)
    → joined (p ∷ ps) ≡ reply_frame (word_bytes (twice (length words)) words)
    → length (p ∷ ps) ≤ 100
    → send_fc_03 base (twice (length words)) request_array reads e ≡ (
      fc_03_request base (twice (length words)),
      some words,
      after_reply (word_bytes (twice (length words)) words),
    )
unfolding send_fc_03 read_words word_bytes twice
send_fc_03-twice base [] arr reads p ps e are_words l u empty new d whole enough =
    absurd (omega arith)
send_fc_03-twice base (w ∷ ws) arr reads p ps e are_words l u empty new d whole enough =
    let words = w ∷ ws in
    let n = twice (length words) in
    let even_n : n ≡ length words * 2 = twice-eq (length words) in
    let half : n / 2 ≡ length words = omega arith in
    let size : length (word_bytes n words) ≡ n = length-word_bytes n words in
    let start : e.buffer ++ joined (p ∷ ps) ≡ joined (p ∷ ps) =
      ap (λ (xs : List ℕ). xs ++ joined (p ∷ ps)) empty in
    let first : length (e.buffer ++ p) ≡ length p = ap (λ (xs : List ℕ). length (xs ++ p)) empty in
    let read =
      tries_03-reply 100 0 reads p ps e (w / 256 % 256)
        ((w % 256) ∷ word_bytes (twice (length ws)) ws) (IsByte-word_bytes n words) (omega arith) d
        (start ∙ whole) (λ q. new (q ∙ first)) enough in
    ap (λ (z : Option (List ℕ) × Echo). (fc_03_request base n, z.0, z.1))
      (ap (read_words n arr) read
        ∙ ap (λ (v : List ℕ). (some v, after_reply (word_bytes n words)))
            (ap
                (λ (k : ℕ).
                  to_words k (word_bytes n words ++ drop (length (word_bytes n words)) arr))
                half
              ∙ to_words-word_bytes words (drop (length (word_bytes n words)) arr) are_words))

-- Where the static buffer is empty and the reads of at most 100 tries bring, in portions that are not
-- empty, the reply with 1 to 125 words, and the first portion is not as long as what the call
-- before ended with, the read request is written to the port, exactly these words are returned, and
-- the buffer is left empty.
pub send_fc_03-words :
    (base : ℕ) (words request_array : List ℕ) (reads : ℕ → Option (List ℕ)) (p : List ℕ)
    (ps : List (List ℕ)) (e : Echo)
    → All (λ (w : ℕ). w < 65536) words
    → 1 ≤ length words
    → length words ≤ 125
    → e.buffer ≡ []
    → e.old_length ≢ length p
    → Delivers reads 0 (p ∷ ps)
    → joined (p ∷ ps) ≡ reply_frame (word_bytes (length words * 2) words)
    → length (p ∷ ps) ≤ 100
    → send_fc_03 base (length words * 2) request_array reads e ≡ (
      fc_03_request base (length words * 2),
      some words,
      after_reply (word_bytes (length words * 2) words),
    )
unfolding send_fc_03
send_fc_03-words base words request_array reads p ps e are_words l u empty new d whole enough =
    let n = twice-eq (length words) in
    let frame = ap (λ (m : ℕ). reply_frame (word_bytes m words)) (sym n) in
    subst
      (λ (m : ℕ).
        send_fc_03 base m request_array reads e
        ≡ (fc_03_request base m, some words, after_reply (word_bytes m words)))
      n
      (send_fc_03-twice base words request_array reads p ps e are_words l u empty new d
        (whole ∙ frame) enough)
