-- ===== src/ThreeFinger/ModbusTcp/Prompt.antt =====
-- The transfer loops where the system makes progress: with as many rounds as bytes they return.
use ur5_ros.Common.{
  ℕ, zero, suc, ◌≤◌, ◌<◌, ◌≡◌, refl, some, length, Bool, All, true, Option, List, arith, ◌∷◌, ◌+◌,
  ◌++◌, drop, ◌*◌, ◌-◌, min, take, [], ◌∙◌, length-drop, ap, length-append, append_split, sym,
}
use ur5_ros.Common.Result.{ok, Result}
use ur5_ros.ThreeFinger.ModbusTcp.{receive_rounds, receive_exact, send_rounds, send_all, after_io}
use ur5_ros.ThreeFinger.ModbusTcp.System.{
  Client, Call, IoRound, wait_for, wait_rounds, ModbusError, transferred, millisecond, read_failed,
  write_failed,
}
use ur5_ros.ThreeFinger.ModbusTcp.Stream.{receive_exact-ok, send_all-ok}

-- A round whose wait ends with the awaited event and which then transfers something.
unfoldable pub IsPrompt : ℕ → IoRound → Type 0
IsPrompt deadline r =
    (wait_rounds deadline r.waits ≡ some (ok tt)) × (n : ℕ) × (r.io ≡ transferred (suc n))

-- A call with a prompt round for each byte.
unfoldable pub PromptFor : ℕ → ℕ → Call → Type 0
PromptFor size timeout call =
    (size ≤ length call.rounds) × All (IsPrompt (call.start + timeout * millisecond)) call.rounds

prompt_wait :
    (deadline : ℕ) (is_open : Bool) (r : IoRound)
    → is_open ≡ true
    → IsPrompt deadline r
    → wait_for is_open deadline r.waits ≡ some (ok tt)
unfolding wait_for IsPrompt
prompt_wait deadline is_open r h p = rw (h) p.0

after_io-prompt :
    {A : Type 0} (deadline : ℕ) (e : ModbusError) (limit : ℕ)
    (moved : ℕ → Option (Result ModbusError A × Client))
    (again : Option (Result ModbusError A × Client)) (r : IoRound) (c : Client)
    → IsPrompt deadline r
    → 0 < limit
    → (k : ℕ) × (k < limit) × (after_io e limit moved again r.io c ≡ moved (suc k))
unfolding IsPrompt
after_io-prompt deadline e limit moved again r c (w, n, io_eq) pos =
    let (k, eq) = suc_of (min (suc n) limit) (omega arith) in
    (k, omega (arith, eq), rw (io_eq, eq) refl)
  where
    suc_of : (m : ℕ) → 0 < m → (k : ℕ) × (m ≡ suc k)
    suc_of zero h = absurd (omega arith)
    suc_of (suc k) h = (k, refl)

receive_rounds-returns :
    (deadline missing : ℕ) (received : List ℕ) (rounds : List IoRound) (c : Client)
    → c.is_open ≡ true
    → All (IsPrompt deadline) rounds
    → missing ≤ length rounds
    → missing ≤ length c.incoming
    → (bytes : List ℕ) × (c' : Client) × (receive_rounds deadline missing received rounds c
        ≡ some (ok bytes, c'))
unfolding receive_rounds
receive_rounds-returns deadline zero received rounds c o ps enough more = (received, c, refl)
receive_rounds-returns deadline (suc missing) received [] c o ps enough more = absurd (omega arith)
receive_rounds-returns deadline (suc missing) received (r ∷ rs) c o (p, ps) enough more =
    let (k, lt, step) =
      after_io-prompt deadline read_failed (min (suc missing) (length c.incoming)) moved again r c p
        (omega arith) in
    let (bytes, c', e) =
      receive_rounds-returns deadline (suc missing - suc k) (received ++ take (suc k) c.incoming) rs
        (record c { incoming = drop (suc k) c.incoming }) o ps (omega arith)
        (omega (arith, length-drop (suc k) c.incoming)) in
    (bytes, c', rw (prompt_wait deadline c.is_open r o p) (step ∙ e))
  where
    moved : ℕ → Option (Result ModbusError (List ℕ) × Client)
    moved n =
        receive_rounds deadline (suc missing - n) (received ++ take n c.incoming) rs
          (record c { incoming = drop n c.incoming })

    again : Option (Result ModbusError (List ℕ) × Client)
    again = receive_rounds deadline (suc missing) received rs c

-- Over prompt rounds `receive_exact` returns the next bytes of the stream, if it has as many.
pub receive_exact-prompt :
    (call : Call) (c : Client) (bytes rest : List ℕ)
    → c.is_open ≡ true
    → PromptFor (length bytes) c.response_timeout call
    → c.incoming ≡ bytes ++ rest
    → receive_exact (length bytes) call c ≡ some (ok bytes, record c { incoming = rest })
unfolding receive_exact PromptFor
receive_exact-prompt call c bytes rest o (enough, ps) stream =
    let (got, c', e) =
      receive_rounds-returns (call.start + c.response_timeout * millisecond) (length bytes) []
        call.rounds c o ps enough (omega (arith, ap length stream, length-append bytes rest)) in
    let (count, split, others) = receive_exact-ok (length bytes) call c c' got e in
    let (same, left) = append_split got bytes c'.incoming rest count (sym split ∙ stream) in
    e ∙ rw (others, same, left) refl

send_rounds-returns :
    (deadline : ℕ) (bytes : List ℕ) (rounds : List IoRound) (c : Client)
    → c.is_open ≡ true
    → All (IsPrompt deadline) rounds
    → length bytes ≤ length rounds
    → (c' : Client) × (send_rounds deadline bytes rounds c ≡ some (ok tt, c'))
unfolding send_rounds
send_rounds-returns deadline [] rounds c o ps enough = (c, refl)
send_rounds-returns deadline (b ∷ bs) [] c o ps enough = absurd (omega arith)
send_rounds-returns deadline (b ∷ bs) (r ∷ rs) c o (p, ps) enough =
    let (k, lt, step) =
      after_io-prompt deadline write_failed (length (b ∷ bs)) moved again r c p (omega arith) in
    let (c', e) =
      send_rounds-returns deadline (drop k bs) rs (record c { sent = c.sent ++ b ∷ take k bs }) o ps
        (omega (arith, length-drop k bs)) in
    (c', rw (prompt_wait deadline c.is_open r o p) (step ∙ e))
  where
    moved : ℕ → Option (Result ModbusError (Unit {0}) × Client)
    moved n =
        send_rounds deadline (drop n (b ∷ bs)) rs (record c { sent = c.sent ++ take n (b ∷ bs) })

    again : Option (Result ModbusError (Unit {0}) × Client)
    again = send_rounds deadline (b ∷ bs) rs c

-- Over prompt rounds `send_all` returns, and has sent all.
pub send_all-prompt :
    (call : Call) (c : Client) (bytes : List ℕ)
    → c.is_open ≡ true
    → PromptFor (length bytes) c.response_timeout call
    → send_all bytes call c ≡ some (ok tt, record c { sent = c.sent ++ bytes })
unfolding send_all PromptFor
send_all-prompt call c bytes o (enough, ps) =
    let (c', e) =
      send_rounds-returns (call.start + c.response_timeout * millisecond) bytes call.rounds c o ps
        enough in
    e ∙ ap (λ x. some (ok tt, x)) (send_all-ok bytes call c c' e)
