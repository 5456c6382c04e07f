-- ===== src/ThreeFinger/ModbusTcp/Transact.antt =====
-- What a transaction that returns has exchanged with the server.
use ur5_ros.ThreeFinger.ModbusTcp.Header.{
  Accepted, Transacted, check_header-ok, check_pdu-ok, returned_lift,
}
use ur5_ros.Common.{
  true, false, not, Bool, ◌==◌, ◌||◌, ltb, ℕ, ◌≡◌, List, get_or, ◌+◌, ◌%◌, length, ◌++◌, some,
  Option, ap, ◌∙◌, if◌then◌else◌, refl,
}
use ur5_ros.Common.Result.{Result, ok, err, lift, run_on-ok}
use ur5_ros.ThreeFinger.ModbusTcp.{
  transact, exchange, check_header, check_pdu, request_frame, receive_exact, send_all, receive_body,
  accept_header, receive_response, read_status, read_request, decode_status,
}
use ur5_ros.ThreeFinger.ModbusTcp.System.{
  ModbusError, Client, Exchange, socket_closed, invalid_pdu_size,
}
use ur5_ros.ThreeFinger.ModbusTcp.Stream.{receive_exact-ok, send_all-ok}

receive_body-ok :
    (pdu response : List ℕ) (x : Exchange) (size : ℕ) (c c' : Client)
    → receive_body pdu x size c ≡ some (ok response, c')
    → (length response ≡ size)
      × (c.incoming ≡ response ++ c'.incoming)
      × (get_or response 0 0 ≡ get_or pdu 0 0)
      × (c' ≡ record c { incoming = c'.incoming })
unfolding receive_body
receive_body-ok pdu response x size c c' h =
    let (body, c1, receiving, checking) =
      run_on-ok (receive_exact size x.body c) (λ r. lift (check_pdu (get_or pdu 0 0) r)) response c'
        h in
    let (count, stream, others) = receive_exact-ok size x.body c c1 body receiving in
    let (checked, same) = returned_lift (check_pdu (get_or pdu 0 0) body) response c1 c' checking in
    let (body_eq, function) = check_pdu-ok (get_or pdu 0 0) body response checked in
    (rw (body_eq) count, rw (body_eq, ← same) stream, function, rw (← same) others)

accept_header-ok :
    (pdu response : List ℕ) (x : Exchange) (header : List ℕ) (c c' : Client)
    → accept_header pdu x header c ≡ some (ok response, c')
    → Accepted c.transaction_id c.unit_id header (length response)
      × (c.incoming ≡ response ++ c'.incoming)
      × (get_or response 0 0 ≡ get_or pdu 0 0)
      × (c' ≡ record c { incoming = c'.incoming })
unfolding accept_header
accept_header-ok pdu response x header c c' h =
    let (size, c1, checking, receiving) =
      run_on-ok (lift (check_header c.transaction_id c.unit_id header) c) (receive_body pdu x)
        response c' h in
    let (checked, same) =
      returned_lift (check_header c.transaction_id c.unit_id header) size c c1 checking in
    let (count, stream, function, others) =
      receive_body-ok pdu response x size c c' (rw (same) receiving) in
    (
      rw (count) (check_header-ok c.transaction_id c.unit_id header size checked),
      stream,
      function,
      others,
    )

receive_response-ok :
    (pdu response : List ℕ) (x : Exchange) (c c' : Client)
    → receive_response pdu x c ≡ some (ok response, c')
    → (header : List ℕ) × Accepted c.transaction_id c.unit_id header (length response)
      × (c.incoming ≡ header ++ (response ++ c'.incoming))
      × (length header ≡ 7)
      × (get_or response 0 0 ≡ get_or pdu 0 0)
      × (c' ≡ record c { incoming = c'.incoming })
unfolding receive_response
receive_response-ok pdu response x c c' h =
    let (header, c1, receiving, accepting) =
      run_on-ok (receive_exact 7 x.header c) (accept_header pdu x) response c' h in
    let (count, stream, others) = receive_exact-ok 7 x.header c c1 header receiving in
    let id_kept = ap (λ (z : Client). z.transaction_id) others in
    let unit_kept = ap (λ (z : Client). z.unit_id) others in
    let (accepted, rest, function, others') =
      accept_header-ok pdu response x header c1 c' accepting in
    (
      header,
      rw (← id_kept, ← unit_kept) accepted,
      stream ∙ ap (◌++◌ header) rest,
      count,
      function,
      others' ∙ ap {A = Client} (λ (z : Client). record z { incoming = c'.incoming }) others,
    )

exchange-ok :
    (pdu response : List ℕ) (x : Exchange) (c c' : Client)
    → exchange pdu x c ≡ some (ok response, c')
    → (header : List ℕ) × Accepted c.transaction_id c.unit_id header (length response)
      × (c.incoming ≡ header ++ (response ++ c'.incoming))
      × (length header ≡ 7)
      × (get_or response 0 0 ≡ get_or pdu 0 0)
      × (c' ≡ record c {
        incoming = c'.incoming;
        sent = c.sent ++ request_frame c.transaction_id c.unit_id pdu;
      })
unfolding exchange
exchange-ok pdu response x c c' h =
    let (_, c1, sending, receiving) =
      run_on-ok (send_all (request_frame c.transaction_id c.unit_id pdu) x.request c)
        (λ _. receive_response pdu x) response c' h in
    let others =
      send_all-ok (request_frame c.transaction_id c.unit_id pdu) x.request c c1 sending in
    receive_response-ok pdu response x
      (record c { sent = c.sent ++ request_frame c.transaction_id c.unit_id pdu }) c'
      (rw (← others) receiving)

guarded :
    (is_open bad_size : Bool) (m : Option (Result ModbusError (List ℕ) × Client))
    (response : List ℕ) (c c' : Client)
    → (if not is_open
        then some (err socket_closed, c)
        else if bad_size
        then some (err invalid_pdu_size, c)
        else m)
      ≡ some (ok response, c')
    → m ≡ some (ok response, c')
guarded false bad m response c c' e = absurd (cc)
guarded true true m response c c' e = absurd (cc)
guarded true false m response c c' e = e

-- A transaction that returns has sent exactly one request frame, with the next transaction id, and
-- taken exactly one response off the stream: a header of 7 bytes with that id, protocol 0, the
-- client's unit and the number of bytes that follow, and as many bytes, with the function code of
-- the request.
pub transact-ok :
    (pdu response : List ℕ) (x : Exchange) (c c' : Client)
    → transact pdu x c ≡ some (ok response, c')
    → Transacted pdu c response c'
unfolding transact
transact-ok pdu response x c c' h =
    let (header, accepted, stream, header_length, function, others) =
      exchange-ok pdu response x (record c { transaction_id = (c.transaction_id + 1) % 65536 }) c'
        (guarded c.is_open (length pdu == 0 || ltb 253 (length pdu))
          (exchange pdu x (record c { transaction_id = (c.transaction_id + 1) % 65536 })) response c
          c' h) in
    record {
      header = header;
      accepted = accepted;
      stream = stream;
      header_length = header_length;
      function = function;
      sent = ap (λ (z : Client). z.sent) others;
      open_kept = ap (λ (z : Client). z.is_open) others;
      counted = ap (λ (z : Client). z.transaction_id) others;
    }

guard_open :
    (is_open bad_size : Bool) (m : Option (Result ModbusError (List ℕ) × Client))
    (response : List ℕ) (c c' : Client)
    → (if not is_open
        then some (err socket_closed, c)
        else if bad_size
        then some (err invalid_pdu_size, c)
        else m)
      ≡ some (ok response, c')
    → is_open ≡ true
guard_open false bad m response c c' e = absurd (cc)
guard_open true bad m response c c' e = refl

transact_open :
    (pdu response : List ℕ) (x : Exchange) (c c' : Client)
    → transact pdu x c ≡ some (ok response, c')
    → c.is_open ≡ true
unfolding transact
transact_open pdu response x c c' h =
    guard_open c.is_open (length pdu == 0 || ltb 253 (length pdu))
      (exchange pdu x (record c { transaction_id = (c.transaction_id + 1) % 65536 })) response c c'
      h

-- After a status is read the socket is open.
pub read_status_open :
    (x : Exchange) (image : List ℕ) (c c' : Client)
    → read_status x c ≡ some (ok image, c')
    → c'.is_open ≡ true
unfolding read_status
read_status_open x image c c' h =
    let (response, c1, e, decoding) =
      run_on-ok (transact read_request x c) (λ r. lift (decode_status r)) image c' h in
    let (_, same) = returned_lift (decode_status response) image c1 c' decoding in
    rw (← same) (
      (transact-ok read_request response x c c1 e).open_kept
      ∙ transact_open read_request response x c c1 e)
