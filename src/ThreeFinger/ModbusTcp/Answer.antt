-- ===== src/ThreeFinger/ModbusTcp/Answer.antt =====
-- A transaction with a server that answers it.
use ur5_ros.Common.{
  ◌==◌, ◌||◌, ltb, ◌+◌, ◌%◌, ℕ, ◌≤◌, ◌≡◌, refl, List, ◌<◌, ◌+◌, [], arith, bit_and, get_or, length,
  true, ◌%◌, ◌++◌, some, ◌∷◌, ap, false, ◌∙◌, Bool, if◌then◌else◌, not,
}
use ur5_ros.Common.Result.{ok, lift, err}
use ur5_ros.ThreeFinger.ModbusTcp.{
  transact, exchange, receive_response, accept_header, receive_body, check_header, check_fields,
  check_pdu, request_frame,
}
use ur5_ros.ThreeFinger.ModbusTcp.System.{
  socket_closed, invalid_pdu_size, Client, Exchange, append_u16,
}
use ur5_ros.ThreeFinger.ModbusTcp.Prompt.{PromptFor, receive_exact-prompt, send_all-prompt}

mbap : ℕ → ℕ → ℕ → List ℕ
mbap transaction_id unit_id size =
    append_u16 (append_u16 (append_u16 [] transaction_id) 0) ((1 + size) % 65536) ++ unit_id ∷ []

check_fields-accepts :
    (t u a b d e size : ℕ)
    → a ≡ t
    → b ≡ 0
    → d ≡ u
    → e ≡ size + 1
    → 1 ≤ size
    → size ≤ 253
    → check_fields t u a b d e ≡ ok size
unfolding check_fields
check_fields-accepts t u a b d e size ea eb ed ee l h = ground arith

check_header-mbap :
    (t u size : ℕ) → t < 65536 → 1 ≤ size → size ≤ 253 → check_header t u (mbap t u size) ≡ ok size
unfolding check_header mbap
check_header-mbap t u size ht l h =
    check_fields-accepts t u _ _ u _ size (omega arith) refl refl (omega arith) l h

check_pdu-accepts :
    (function : ℕ) (response : List ℕ)
    → bit_and function 0x80 ≡ 0
    → get_or response 0 0 ≡ function
    → check_pdu function response ≡ ok response
unfolding check_pdu
check_pdu-accepts function response plain e = ground arith

-- The answer to a request: a function code as the request's, which is no exception's, in 1 to 253
-- bytes.
pub record Answers (pdu response : List ℕ) : Type 0 where
  pub function : get_or response 0 0 ≡ get_or pdu 0 0
  pub plain : bit_and (get_or pdu 0 0) 0x80 ≡ 0
  pub lower : 1 ≤ length response
  pub upper : length response ≤ 253

-- An exchange all of whose calls make progress.
pub record IsPromptExchange (frame response : List ℕ) (c : Client) (x : Exchange) : Type 0 where
  pub request : PromptFor (length frame) c.response_timeout x.request
  pub header : PromptFor 7 c.response_timeout x.header
  pub body : PromptFor (length response) c.response_timeout x.body

receive_body-answered :
    (pdu response rest : List ℕ) (x : Exchange) (c : Client)
    → c.is_open ≡ true
    → Answers pdu response
    → PromptFor (length response) c.response_timeout x.body
    → c.incoming ≡ response ++ rest
    → receive_body pdu x (length response) c ≡ some (ok response, record c { incoming = rest })
unfolding receive_body
receive_body-answered pdu response rest x c o answer prompt stream =
    rw (receive_exact-prompt x.body c response rest o prompt stream) (
      ap (λ r. lift r (record c { incoming = rest }))
        (check_pdu-accepts (get_or pdu 0 0) response answer.plain answer.function))

accept_header-answered :
    (pdu response rest : List ℕ) (x : Exchange) (c : Client)
    → c.is_open ≡ true
    → c.transaction_id < 65536
    → Answers pdu response
    → PromptFor (length response) c.response_timeout x.body
    → c.incoming ≡ response ++ rest
    → accept_header pdu x (mbap c.transaction_id c.unit_id (length response)) c
      ≡ some (ok response, record c { incoming = rest })
unfolding accept_header
accept_header-answered pdu response rest x c o bound answer prompt stream =
    rw
      (check_header-mbap c.transaction_id c.unit_id (length response) bound answer.lower
        answer.upper)
      (receive_body-answered pdu response rest x c o answer prompt stream)

receive_response-answered :
    (pdu response rest : List ℕ) (x : Exchange) (c : Client)
    → c.is_open ≡ true
    → c.transaction_id < 65536
    → Answers pdu response
    → PromptFor 7 c.response_timeout x.header
    → PromptFor (length response) c.response_timeout x.body
    → c.incoming ≡ request_frame c.transaction_id c.unit_id response ++ rest
    → receive_response pdu x c ≡ some (ok response, record c { incoming = rest })
unfolding receive_response request_frame mbap
receive_response-answered pdu response rest x c o bound answer prompt_header prompt stream =
    rw
      (receive_exact-prompt x.header c (mbap c.transaction_id c.unit_id (length response))
        (response ++ rest) o prompt_header stream)
      (accept_header-answered pdu response rest x (record c { incoming = response ++ rest }) o bound
        answer prompt refl)

exchange-answered :
    (pdu response rest : List ℕ) (x : Exchange) (c : Client)
    → c.is_open ≡ true
    → c.transaction_id < 65536
    → Answers pdu response
    → IsPromptExchange (request_frame c.transaction_id c.unit_id pdu) response c x
    → c.incoming ≡ request_frame c.transaction_id c.unit_id response ++ rest
    → exchange pdu x c
      ≡ some (
        ok response,
        record c { incoming = rest; sent = c.sent ++ request_frame c.transaction_id c.unit_id pdu },
      )
unfolding exchange
exchange-answered pdu response rest x c o bound answer prompt stream =
    rw (send_all-prompt x.request c (request_frame c.transaction_id c.unit_id pdu) o prompt.request)
      (receive_response-answered pdu response rest x
        (record c { sent = c.sent ++ request_frame c.transaction_id c.unit_id pdu }) o bound answer
        prompt.header prompt.body stream)

guards_pass :
    {A : Type 0} (is_open bad_size : Bool) (a b m : A)
    → is_open ≡ true
    → bad_size ≡ false
    → (if not is_open then a else if bad_size then b else m) ≡ m
guards_pass false bad a b m p q = absurd (cc)
guards_pass true true a b m p q = absurd (cc)
guards_pass true false a b m p q = refl

sized : (n : ℕ) → 1 ≤ n → n ≤ 253 → (n == 0 || ltb 253 n) ≡ false
sized n l h = ground arith

-- Where the server answers the request with the transaction id of the frame, and the system makes
-- progress, the transaction returns the answer, with the frame sent and the answer taken off the
-- stream.
pub transact-answered :
    (pdu response rest : List ℕ) (x : Exchange) (c : Client)
    → c.is_open ≡ true
    → 1 ≤ length pdu
    → length pdu ≤ 253
    → Answers pdu response
    → IsPromptExchange (request_frame ((c.transaction_id + 1) % 65536) c.unit_id pdu) response c x
    → c.incoming ≡ request_frame ((c.transaction_id + 1) % 65536) c.unit_id response ++ rest
    → transact pdu x c
      ≡ some (
        ok response,
        record c {
          transaction_id = (c.transaction_id + 1) % 65536;
          incoming = rest;
          sent = c.sent ++ request_frame ((c.transaction_id + 1) % 65536) c.unit_id pdu;
        },
      )
unfolding transact
transact-answered pdu response rest x c o l h answer prompt stream =
    guards_pass c.is_open (length pdu == 0 || ltb 253 (length pdu)) (some (err socket_closed, c))
      (some (err invalid_pdu_size, c))
      (exchange pdu x (record c { transaction_id = (c.transaction_id + 1) % 65536 })) o
      (sized (length pdu) l h)
    ∙ exchange-answered pdu response rest x
        (record c { transaction_id = (c.transaction_id + 1) % 65536 }) o (omega arith) answer
        (record { request = prompt.request; header = prompt.header; body = prompt.body }) stream
