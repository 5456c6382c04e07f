-- ===== src/ThreeFinger/ModbusTcp/Server.antt =====
-- Transactions with a server that answers them.
use ur5_ros.ThreeFinger.ModbusTcp.Answer.{Answers, IsPromptExchange, transact-answered}
use ur5_ros.Common.{
  ◌+◌, ◌%◌, ℕ, ◌≤◌, ◌≡◌, refl, List, ◌+◌, [], arith, length, true, ◌%◌, ◌++◌, some, ◌∷◌, ap, take,
  sym, append-nil, ◌∙◌, take-append,
}
use ur5_ros.Common.Result.{ok, lift}
use ur5_ros.ThreeFinger.ModbusTcp.{
  request_frame, read_status, write_command, decode_status, check_echo, read_request, write_request,
}
use ur5_ros.ThreeFinger.ModbusTcp.System.{Client, Exchange}

-- The client after a transaction whose answer leaves `rest` in the stream.
abbrev pub transacted : List ℕ → List ℕ → Client → Client
transacted pdu rest c = record c {
  transaction_id = (c.transaction_id + 1) % 65536;
  incoming = rest;
  sent = c.sent ++ request_frame ((c.transaction_id + 1) % 65536) c.unit_id pdu;
}

take_all : (n : ℕ) (image : List ℕ) → length image ≡ n → take n image ≡ image
take_all n image h =
    rw (← h) (ap (take (length image)) (sym (append-nil image)) ∙ take-append image [])

decode_status-image :
    (image : List ℕ) → length image ≡ 16 → decode_status (0x04 ∷ 16 ∷ image) ≡ ok image
unfolding decode_status
decode_status-image image h = rw (h) (ap ok (take_all 16 image h))

write_request-sized :
    (image : List ℕ)
    → length image ≡ 16
    → (1 ≤ length (write_request image)) × (length (write_request image) ≤ 253)
unfolding write_request
write_request-sized image h = (omega (arith, h), omega (arith, h))

abbrev pub write_echo : List ℕ
write_echo = 0x10 ∷ 0 ∷ 0 ∷ 0 ∷ 8 ∷ []

status-Answers : (image : List ℕ) → length image ≡ 16 → Answers read_request (0x04 ∷ 16 ∷ image)
status-Answers image h = record {
  function = refl;
  plain = refl;
  lower = omega arith;
  upper = omega (arith, h);
}

echo-Answers : (image : List ℕ) → Answers (write_request image) write_echo
unfolding write_request
echo-Answers image = record {
  function = refl;
  plain = refl;
  lower = omega arith;
  upper = omega arith;
}

check_echo-write_echo : check_echo write_echo ≡ ok tt
unfolding check_echo
check_echo-write_echo = refl

-- On an open socket, where the stream begins with a response to the next transaction id that
-- carries 16 bytes of registers, and each of the three transfers has a round for each of its bytes
-- in which the wait succeeds and something is transferred, `read_status` returns these 16 bytes,
-- has sent the request, and leaves the rest of the stream.
pub read_status-answered :
    (image rest : List ℕ) (x : Exchange) (c : Client)
    → c.is_open ≡ true
    → length image ≡ 16
    → IsPromptExchange
        (request_frame ((c.transaction_id + 1) % 65536) c.unit_id read_request)
        (0x04 ∷ 16 ∷ image)
        c
        x
    → c.incoming
      ≡ request_frame ((c.transaction_id + 1) % 65536) c.unit_id (0x04 ∷ 16 ∷ image) ++ rest
    → read_status x c ≡ some (ok image, transacted read_request rest c)
unfolding read_status
read_status-answered image rest x c o h prompt stream =
    rw
      (transact-answered read_request (0x04 ∷ 16 ∷ image) rest x c o (omega arith) (omega arith)
        (status-Answers image h) prompt stream)
      (ap (λ r. lift r (transacted read_request rest c)) (decode_status-image image h))

-- On an open socket, where the stream begins with a response to the next transaction id that echoes
-- the registers, and each of the three transfers has a round for each of its bytes in which the
-- wait succeeds and something is transferred, `write_command` of a 16-byte image returns, has sent
-- the image in its request, and leaves the rest of the stream.
pub write_command-answered :
    (image rest : List ℕ) (x : Exchange) (c : Client)
    → c.is_open ≡ true
    → length image ≡ 16
    → IsPromptExchange
        (request_frame ((c.transaction_id + 1) % 65536) c.unit_id (write_request image))
        write_echo
        c
        x
    → c.incoming ≡ request_frame ((c.transaction_id + 1) % 65536) c.unit_id write_echo ++ rest
    → write_command image x c ≡ some (ok tt, transacted (write_request image) rest c)
unfolding write_command
write_command-answered image rest x c o h prompt stream =
    rw
      (transact-answered (write_request image) write_echo rest x c o (write_request-sized image h).0
        (write_request-sized image h).1 (echo-Answers image) prompt stream)
      (ap (λ r. lift r (transacted (write_request image) rest c)) check_echo-write_echo)
