-- ===== src/ThreeFinger/Controller/Operations/Activation.antt =====
-- What the services of the controller node have seen when they report a success.
use Prim.Native.String.{String}
use mathlib.Core.Path.{subst}
use ur5_ros.ThreeFinger.Controller.Operations.Services.{
  Acknowledged, Ended, acknowledged, publish_and_wait-Answered, end_service-ok, begun-ok,
  current_status-ok,
}
use ur5_ros.Common.{
  ℕ, ◌≡◌, ap, refl, ◌==◌, ◌%◌, true, false, not, ==→eq, and-three, and-four, not-true, List, none,
  some, sym,
}
use ur5_ros.Common.Result.{Result, ok, err}
use ur5_ros.ThreeFinger.Messages.{Status, initialization_reset, initialization_ready}
use ur5_ros.ThreeFinger.Controller.{
  Config, Controller, on_events, current_status, release, Response, empty_command, publish_command,
}
use ur5_ros.ThreeFinger.Controller.Wait.{Waited}
use ur5_ros.ThreeFinger.Controller.Wait.Verdicts.{Answered}
use ur5_ros.ThreeFinger.Controller.Operations.{
  Attempt, publish_and_wait, is_reset, is_active, then_activate, after_reset, activate_from,
  activate, activation_command, Round,
}

pub record Reset (k : Config) (connection_id : ℕ) (rounds : List Round)
    (start before after : Controller) : Type 0 where
  pub acknowledged : Acknowledged k connection_id rounds start before after
  pub inactive : after.current_status.activated ≡ false
  pub initialization : after.current_status.initialization_status ≡ initialization_reset

pub record Active (k : Config) (connection_id : ℕ) (rounds : List Round)
    (start before after : Controller) : Type 0 where
  pub acknowledged : Acknowledged k connection_id rounds start before after
  pub active : after.current_status.activated ≡ true
  pub initialization : after.current_status.initialization_status ≡ initialization_ready
  pub mode : after.current_status.mode ≡ k.activation_mode % 256

acknowledged-Reset :
    (k : Config) (connection_id : ℕ) (rounds : List Round) (w : Waited)
    (start before after : Controller)
    → Answered k (is_reset before.next_command_id) connection_id rounds start w after
    → Reset k connection_id rounds start before after
unfolding is_reset
acknowledged-Reset k connection_id rounds w start before after a =
    let s = after.current_status in
    let (id, idle, initial) =
      and-three (s.last_command_id == before.next_command_id) (not s.activated)
        (s.initialization_status == initialization_reset) a.answers in
    record {
      acknowledged =
          acknowledged k (is_reset before.next_command_id) connection_id rounds w start before after
            a id;
      inactive = not-true s.activated idle;
      initialization = ==→eq s.initialization_status initialization_reset initial;
    }

acknowledged-Active :
    (k : Config) (connection_id : ℕ) (rounds : List Round) (w : Waited)
    (start before after : Controller)
    → Answered k (is_active k before.next_command_id) connection_id rounds start w after
    → Active k connection_id rounds start before after
unfolding is_active
acknowledged-Active k connection_id rounds w start before after a =
    let s = after.current_status in
    let (id, active, initial, mode) =
      and-four (s.last_command_id == before.next_command_id) s.activated
        (s.initialization_status == initialization_ready) (s.mode == k.activation_mode % 256)
        a.answers in
    record {
      acknowledged =
          acknowledged k (is_active k before.next_command_id) connection_id rounds w start before
            after a id;
      active = active;
      initialization = ==→eq s.initialization_status initialization_ready initial;
      mode = ==→eq s.mode (k.activation_mode % 256) mode;
    }

-- The two waits of an activation that succeeds: the state `reset` in which the reset has been
-- acknowledged, and `activated` in which, other events apart, the activation has been.
pub record Activated (k : Config) (reset_attempt activation : Attempt) (c d : Controller)
    : Type 0 where
  pub was_free : c.busy ≡ false
  pub reset : Controller
  pub activated : Controller
  pub was_reset :
      let before : Controller = on_events k reset_attempt.events (record c { busy = true }) in
      Reset k c.current_status.connection_id reset_attempt.rounds
        (publish_command empty_command before)
        before
        reset
  pub is_active :
      let before : Controller = on_events k activation.events reset in
      Active k c.current_status.connection_id activation.rounds
        (publish_command (activation_command k) before)
        before
        activated
  pub is_released : d ≡ release activated

then_activate-ok :
    (k : Config) (connection_id : ℕ) (a : Attempt) (o : Ended) (r : Response) (d : Controller)
    → then_activate k connection_id a o ≡ some (r, d)
    → r.success ≡ true
    → (w : Waited) × (c : Controller) × (o ≡ some (w, c))
      × (w.verdict ≡ ok tt)
      × (after_reset k connection_id a (ok tt) w.final_status c ≡ some (r, d))
unfolding then_activate after_reset
then_activate-ok k connection_id a none r d h t = absurd (cc)
then_activate-ok k connection_id a (some (w, c)) r d h t =
    let (v, rest) = by_verdict w.verdict h in (w, c, refl, v, rest)
  where
    by_verdict :
        (v : Result String (Unit {0}))
        → after_reset k connection_id a v w.final_status c ≡ some (r, d)
        → (v ≡ ok tt) × (after_reset k connection_id a (ok tt) w.final_status c ≡ some (r, d))
    by_verdict (ok tt) g = (refl, g)
    by_verdict (err reason) g = absurd (cc)

after_reset-ok :
    (k : Config) (connection_id : ℕ) (a : Attempt) (final : Status) (c d : Controller)
    (r : Response)
    → after_reset k connection_id a (ok tt) final c ≡ some (r, d)
    → r.success ≡ true
    → (e : Controller) × Active k connection_id a.rounds
        (publish_command (activation_command k) (on_events k a.events c))
        (on_events k a.events c)
        e
      × (d ≡ release e)
unfolding after_reset
after_reset-ok k connection_id a final c d r h t =
    let (w, e, waited, v, same) =
      end_service-ok "activation failed: " "gripper activated and ready"
        (publish_and_wait k k.activation_timeout connection_id (activation_command k) (is_active k)
          a final c)
        r d h t in
    let before : Controller = on_events k a.events c in
    (
      e,
      acknowledged-Active k connection_id a.rounds w (publish_command (activation_command k) before)
          before e
          (publish_and_wait-Answered k k.activation_timeout connection_id (activation_command k)
            (is_active k) a final c e w waited v),
      sym same,
    )

-- What the two attempts of an activation show, of a connection.
abbrev BothAnswered : Config → Attempt → Attempt → ℕ → Controller → Controller → Type 0
BothAnswered k reset activation connection_id c d =
    (m : Controller) × (e : Controller) × Reset k connection_id reset.rounds
      (publish_command empty_command (on_events k reset.events c)) (on_events k reset.events c) m
    × Active k connection_id activation.rounds
        (publish_command (activation_command k) (on_events k activation.events m))
        (on_events k activation.events m) e
    × (d ≡ release e)

activate_from-ok :
    (k : Config) (reset activation : Attempt) (s : Result String Status) (c d : Controller)
    (r : Response)
    → ((status : Status) → s ≡ ok status → c.current_status ≡ status)
    → activate_from k reset activation s c ≡ some (r, d)
    → r.success ≡ true
    → BothAnswered k reset activation c.current_status.connection_id c d
unfolding activate_from
activate_from-ok k reset activation (err reason) c d r s h t = absurd (cc)
activate_from-ok k reset activation (ok status) c d r s h t =
    let id : c.current_status.connection_id ≡ status.connection_id =
      ap {A = Status} (λ (z : Status). z.connection_id) (s status refl) in
    let (w, m, waited, v, rest) =
      then_activate-ok k status.connection_id activation
        (publish_and_wait k k.activation_timeout status.connection_id empty_command is_reset reset
          status c)
        r d h t in
    let before : Controller = on_events k reset.events c in
    let first =
      acknowledged-Reset k status.connection_id reset.rounds w
        (publish_command empty_command before) before m
        (publish_and_wait-Answered k k.activation_timeout status.connection_id empty_command
          is_reset reset status c m w waited v) in
    let (e, second, freed) =
      after_reset-ok k status.connection_id activation w.final_status m d r rest t in
    subst (λ (z : ℕ). BothAnswered k reset activation z c d) (sym id) (m, e, first, second, freed)

-- `activate` reports success only where no other operation held the flag, the reset was answered by
-- a fresh status of the connection that the request began on, deactivated and reset, and after it
-- the activation was answered by a fresh status of that connection, active, ready and of the
-- configured mode, each with the id of its command; the flag is free again. A status is fresh where
-- its wait ended at a round whose reading of the clock was within `status_timeout` of its reception.
pub activate-Activated :
    (k : Config) (now : ℕ) (reset activation : Attempt) (c d : Controller) (r : Response)
    → activate k now reset activation c ≡ some (r, d)
    → r.success ≡ true
    → Activated k reset activation c d
unfolding activate
activate-Activated k now reset activation c d r h t =
    let taken : Controller = record c { busy = true } in
    let (free, body) =
      begun-ok c (λ b. activate_from k reset activation (current_status k now b) b) r d h t in
    let (m, e, first, second, freed) =
      activate_from-ok k reset activation (current_status k now taken) taken d r
        (λ s e. current_status-ok k now taken s e) body t in
    record {
      was_free = free;
      reset = m;
      activated = e;
      was_reset = first;
      is_active = second;
      is_released = freed;
    }
