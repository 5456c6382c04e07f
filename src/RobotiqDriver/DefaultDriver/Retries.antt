-- ===== src/RobotiqDriver/DefaultDriver/Retries.antt =====
-- The retries of `send`: five attempts, of which an IOException costs one.
use ur5_ros.Common.{ℕ, zero, suc, ◌<◌, ◌≡◌, refl, ap, arith, List, [], length}
use ur5_ros.Common.Result.{Result, ok, err, run_next}
use ur5_ros.RobotiqDriver.Serial.{Serial, SerialError, io_exception, other_exception}
use ur5_ros.RobotiqDriver.Frames.{DefaultDriver, DriverError, uncaught}
use ur5_ros.RobotiqDriver.DefaultDriver.{attempt, after_attempt, send_loop, send}

ok_injective : {E : Type 0} {a b : List ℕ} → ◌≡◌ {A = Result E (List ℕ)} (ok a) (ok b) → a ≡ b
ok_injective e = cc

module _ (serial : Serial) (request : List ℕ) (size : ℕ) where
  open serial use {Port, read, write, read_length}

  -- `k` attempts one after the other, each ended by an IOException, take a port to another.
  pub data Fails : ℕ → Port → Port → Type 0 where
    none_fails : {p : Port} → Fails 0 p p
    one_fails :
        {k : ℕ} {p q r : Port}
        → attempt serial request size p ≡ (err io_exception, q)
        → Fails k q r
        → Fails (suc k) p r

  abbrev pub Sent : Type 0
  Sent = Result DriverError (List ℕ) × Port

  -- What `n` attempts may come to.
  pub data Outcome (n : ℕ) (p : Port) : Sent → Type 0 where
    got :
        {k : ℕ} {q q' : Port} {response : List ℕ}
        → Fails k p q
        → k < n
        → attempt serial request size q ≡ (ok response, q')
        → Outcome n p (ok response, q')
    raised :
        {k : ℕ} {q q' : Port}
        → Fails k p q
        → k < n
        → attempt serial request size q ≡ (err other_exception, q')
        → Outcome n p (err (uncaught other_exception), q')
    gave_up : {q : Port} → Fails n p q → Outcome n p (ok [], q)

  later :
      {n : ℕ} {p q : Port} {s : Sent}
      → attempt serial request size p ≡ (err io_exception, q)
      → Outcome n q s
      → Outcome (suc n) p s
  later e (got f h a) = got (one_fails e f) (omega arith) a
  later e (raised f h a) = raised (one_fails e f) (omega arith) a
  later e (gave_up f) = gave_up (one_fails e f)

  after_attempt-Outcome :
      (n : ℕ) (p : Port) (a : Result SerialError (List ℕ) × Port)
      → attempt serial request size p ≡ a
      → ((q : Port) → Outcome n q (send_loop serial n request size q))
      → Outcome (suc n) p (after_attempt serial (λ q. send_loop serial n request size q) a)
  unfolding after_attempt
  after_attempt-Outcome n p (ok response, q) e rest = got none_fails (omega arith) e
  after_attempt-Outcome n p (err io_exception, q) e rest = later e (rest q)
  after_attempt-Outcome n p (err other_exception, q) e rest = raised none_fails (omega arith) e

  send_loop-Outcome : (n : ℕ) (p : Port) → Outcome n p (send_loop serial n request size p)
  unfolding send_loop
  send_loop-Outcome zero p = gave_up none_fails
  send_loop-Outcome (suc n) p =
      after_attempt-Outcome n p (attempt serial request size p) refl (send_loop-Outcome n)

  -- `send` ends after at most five attempts: with the response of the first that is not ended by an
  -- IOException, with the other exception that ended it, or, when all five fail, with no bytes. Of
  -- the driver it changes the port alone.
  pub send-Outcome :
      (d : DefaultDriver Port)
      → let (r, d') = send serial request size d in
        Outcome 5 d.port (r, d'.port) × (d' ≡ record d { port = d'.port })
  unfolding send
  send-Outcome d = (send_loop-Outcome 5 d.port, refl)

  written_length :
      (w : Result SerialError (Unit {0}) × Port) (q : Port) (response : List ℕ)
      → run_next w (λ _. read size) ≡ (ok response, q)
      → length response ≡ size
  written_length (ok u, p) q response e = read_length size p q response e
  written_length (err x, p) q response e = absurd (cc)

  attempt-length :
      (p q : Port) (response : List ℕ)
      → attempt serial request size p ≡ (ok response, q)
      → length response ≡ size
  unfolding attempt
  attempt-length p q response e = written_length (write request p) q response e

  sent_empty :
      (n : ℕ) (p : Port) (s : Sent) → 0 < size → Outcome n p s → s.0 ≡ ok [] → Fails n p s.1
  sent_empty n p s h (got f lt a) e =
      absurd (omega (arith, attempt-length _ _ _ a, ap length (ok_injective e)))
  sent_empty n p s h (raised f lt a) e = absurd (cc)
  sent_empty n p s h (gave_up f) e = f

  -- Where a response has at least one byte, `send` returns no bytes only if all five attempts were
  -- ended by an IOException.
  pub send_empty :
      (d : DefaultDriver Port)
      → 0 < size
      → (send serial request size d).0 ≡ ok []
      → Fails 5 d.port (send serial request size d).1.port
  unfolding send
  send_empty d h e = sent_empty 5 d.port _ h (send_loop-Outcome 5 d.port) e
