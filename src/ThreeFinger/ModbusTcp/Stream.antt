-- ===== src/ThreeFinger/ModbusTcp/Stream.antt =====
-- The transfer loops against the byte stream of the connection: in which portions the system
-- transfers it makes no difference.
use ur5_ros.Common.Result.{returned}
use ur5_ros.Common.{
  take-drop, append-nil, append_assoc, ℕ, ◌++◌, arith, inl, inr, min, zero, suc, ◌≤◌, ◌<◌, ◌≡◌,
  refl, Option, List, length, some, ◌⊎◌, inr, [], ◌∷◌, ◌-◌, none, take, drop, length-append,
  length-take, ◌∙◌, append_assoc, sym, ap, ◌+◌, ◌*◌,
}
use ur5_ros.Common.Result.{ok, err, Result}
use ur5_ros.ThreeFinger.ModbusTcp.{
  after_wait, after_io, closed_or_moved, receive_rounds, receive_exact, send_rounds, send_all,
}
use ur5_ros.ThreeFinger.ModbusTcp.System.{
  ModbusError, Client, IoRound, IoAnswer, transferred, would_block, io_failed, read_failed,
  wait_for, Call, write_failed, millisecond,
}

after_wait-ok :
    {A : Type 0} (w : Option (Result ModbusError (Unit {0})))
    (next : Option (Result ModbusError A × Client)) (c c' : Client) (a : A)
    → after_wait w next c ≡ some (ok a, c')
    → next ≡ some (ok a, c')
after_wait-ok none next c c' a h = absurd (cc)
after_wait-ok (some (ok x)) next c c' a h = h
after_wait-ok (some (err e)) next c c' a h = absurd (cc)

pub Moved : {A : Type 0} → ℕ → (ℕ → Option (Result ModbusError A × Client)) → A → Client → Type 0
Moved limit moved a c' = (n : ℕ) × (n < limit) × (moved (suc n) ≡ some (ok a, c'))

closed_or_moved-ok :
    {A : Type 0} (limit n : ℕ) (moved : ℕ → Option (Result ModbusError A × Client)) (c c' : Client)
    (a : A)
    → n ≤ limit
    → closed_or_moved moved n c ≡ some (ok a, c')
    → Moved limit moved a c'
unfolding Moved
closed_or_moved-ok limit zero moved c c' a le h = absurd (cc)
closed_or_moved-ok limit (suc n) moved c c' a le h = (n, omega arith, h)

after_io-ok :
    {A : Type 0} (e : ModbusError) (limit : ℕ) (moved : ℕ → Option (Result ModbusError A × Client))
    (again : Option (Result ModbusError A × Client)) (io : IoAnswer) (c c' : Client) (a : A)
    → after_io e limit moved again io c ≡ some (ok a, c')
    → Moved limit moved a c' ⊎ (again ≡ some (ok a, c'))
after_io-ok e limit moved again (transferred n) c c' a h =
    inl (closed_or_moved-ok limit (min n limit) moved c c' a (omega arith) h)
after_io-ok e limit moved again would_block c c' a h = inr h
after_io-ok e limit moved again io_failed c c' a h = absurd (cc)

-- What `receive_exact` has done when it returns.
pub record Received (missing : ℕ) (received : List ℕ) (c : Client) (bytes : List ℕ) (c' : Client)
    : Type 0 where
  pub taken : List ℕ
  pub count : length taken ≡ missing
  pub all : bytes ≡ received ++ taken
  pub stream : c.incoming ≡ taken ++ c'.incoming
  pub others : c' ≡ record c { incoming = c'.incoming }

after_portion :
    (missing n : ℕ) (received : List ℕ) (c c' : Client) (bytes : List ℕ)
    → n ≤ missing
    → n < length c.incoming
    → Received
        (suc missing - suc n)
        (received ++ take (suc n) c.incoming)
        (record c { incoming = drop (suc n) c.incoming })
        bytes
        c'
    → Received (suc missing) received c bytes c'
after_portion missing n received c c' bytes le lt rest = record {
  taken = take (suc n) c.incoming ++ rest.taken;
  count = omega (
    arith,
    length-append (take (suc n) c.incoming) rest.taken,
    length-take (suc n) c.incoming,
    rest.count,
  );
  all = rest.all ∙ append_assoc received (take (suc n) c.incoming) rest.taken;
  stream =
      sym (take-drop (suc n) c.incoming)
      ∙ ap (◌++◌ (take (suc n) c.incoming)) rest.stream
      ∙ sym (append_assoc (take (suc n) c.incoming) rest.taken c'.incoming);
  others = rest.others;
}

receive_rounds-ok :
    (deadline missing : ℕ) (received : List ℕ) (rounds : List IoRound) (c c' : Client)
    (bytes : List ℕ)
    → receive_rounds deadline missing received rounds c ≡ some (ok bytes, c')
    → Received missing received c bytes c'
unfolding receive_rounds Moved
receive_rounds-ok deadline zero received rounds c c' bytes h =
    let (same_bytes, same_client) = returned received bytes c c' h in
    record {
      taken = [];
      count = refl;
      all = sym same_bytes ∙ sym (append-nil received);
      stream = ap (λ x. x.incoming) same_client;
      others = rw (← same_client) refl;
    }
receive_rounds-ok deadline (suc missing) received [] c c' bytes h = absurd (cc)
receive_rounds-ok deadline (suc missing) received (r ∷ rs) c c' bytes h =
    elim (after_io-ok read_failed (min (suc missing) (length c.incoming)) moved again r.io c c'
      bytes
      (after_wait-ok (wait_for c.is_open deadline r.waits)
        (after_io read_failed (min (suc missing) (length c.incoming)) moved again r.io c) c c' bytes
        h)) [
          | inl (n, lt, e) ↦
              after_portion missing n received c c' bytes (omega arith) (omega arith) (
                receive_rounds-ok deadline (suc missing - suc n)
                  (received ++ take (suc n) c.incoming) rs
                  (record c { incoming = drop (suc n) c.incoming }) c' bytes e)
          | inr e ↦ receive_rounds-ok deadline (suc missing) received rs c c' bytes e
        ]
  where
    moved : ℕ → Option (Result ModbusError (List ℕ) × Client)
    moved n =
        receive_rounds deadline (suc missing - n) (received ++ take n c.incoming) rs
          (record c { incoming = drop n c.incoming })

    again : Option (Result ModbusError (List ℕ) × Client)
    again = receive_rounds deadline (suc missing) received rs c

-- `receive_exact` returns exactly the next `size` bytes of the stream and takes them off it, in
-- whatever portions the system delivers them; of the client nothing else changes.
pub receive_exact-ok :
    (size : ℕ) (call : Call) (c c' : Client) (bytes : List ℕ)
    → receive_exact size call c ≡ some (ok bytes, c')
    → (length bytes ≡ size)
      × (c.incoming ≡ bytes ++ c'.incoming)
      × (c' ≡ record c { incoming = c'.incoming })
unfolding receive_exact
receive_exact-ok size call c c' bytes h =
    let r =
      receive_rounds-ok (call.start + c.response_timeout * millisecond) size [] call.rounds c c'
        bytes h in
    (rw (r.all) r.count, rw (r.all) r.stream, r.others)

-- What `send_all` has done when it returns.
send_rounds-ok :
    (deadline : ℕ) (bytes : List ℕ) (rounds : List IoRound) (c c' : Client)
    → send_rounds deadline bytes rounds c ≡ some (ok tt, c')
    → c' ≡ record c { sent = c.sent ++ bytes }
unfolding send_rounds Moved
send_rounds-ok deadline [] rounds c c' h =
    let (_, same) = returned tt tt c c' h in sym same ∙ rw (append-nil c.sent) refl
send_rounds-ok deadline (b ∷ bs) [] c c' h = absurd (cc)
send_rounds-ok deadline (b ∷ bs) (r ∷ rs) c c' h =
    elim (after_io-ok write_failed (length (b ∷ bs)) moved again r.io c c' tt (
      after_wait-ok (wait_for c.is_open deadline r.waits)
        (after_io write_failed (length (b ∷ bs)) moved again r.io c) c c' tt h)) [
          | inl (n, lt, e) ↦
              send_rounds-ok deadline (drop n bs) rs (record c { sent = c.sent ++ b ∷ take n bs })
                c' e
              ∙ ap (λ x. record c { sent = x })
                  (append_assoc c.sent (b ∷ take n bs) (drop n bs)
                    ∙ ap (λ x. c.sent ++ b ∷ x) (take-drop n bs))
          | inr e ↦ send_rounds-ok deadline (b ∷ bs) rs c c' e
        ]
  where
    moved : ℕ → Option (Result ModbusError (Unit {0}) × Client)
    moved n =
        send_rounds deadline (drop n (b ∷ bs)) rs (record c { sent = c.sent ++ take n (b ∷ bs) })

    again : Option (Result ModbusError (Unit {0}) × Client)
    again = send_rounds deadline (b ∷ bs) rs c

-- `send_all` has sent all its bytes in their order, in whatever portions the system takes them.
pub send_all-ok :
    (bytes : List ℕ) (call : Call) (c c' : Client)
    → send_all bytes call c ≡ some (ok tt, c')
    → c' ≡ record c { sent = c.sent ++ bytes }
unfolding send_all
send_all-ok bytes call c c' h =
    send_rounds-ok (call.start + c.response_timeout * millisecond) bytes call.rounds c c' h
