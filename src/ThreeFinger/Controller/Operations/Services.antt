-- ===== src/ThreeFinger/Controller/Operations/Services.antt =====
-- What a service of the controller node has seen where it reports a success: its stages.
use Prim.Native.String.{String}
use ur5_ros.Common.{
  ℕ, ◌≡◌, ◌∙◌, ap, refl, ◌==◌, Bool, true, false, not, ==→eq, if◌then◌else◌, [], Option, none, some,
  ◌+◌, List,
}
use ur5_ros.Common.Result.{Result, ok, err}
use ur5_ros.ThreeFinger.Messages.{Command, Status}
use ur5_ros.ThreeFinger.Controller.{
  Config, Controller, on_events, current_status, publish_command, begin_operation, release,
  is_stale, or_text, Response,
}
use ur5_ros.ThreeFinger.Controller.Wait.{Waited}
use ur5_ros.ThreeFinger.Controller.Wait.Verdicts.{Answered, wait_for_status-Answered, Fresh}
use ur5_ros.ThreeFinger.Controller.Operations.{
  Attempt, publish_and_wait, service_response, end_service, when_begun, Round,
}

-- A status that answers a command: it is the current one and fresh, of the connection, and its last
-- command is the one of the id that the command was given in the state `before`; `start` is the
-- state in which the wait began.
pub record Acknowledged (k : Config) (connection_id : ℕ) (rounds : List Round)
    (start before after : Controller) : Type 0 where
  pub connected : after.current_status.connected ≡ true
  pub connection : after.current_status.connection_id ≡ connection_id
  pub fresh : Fresh k rounds start after
  pub command : after.current_status.last_command_id ≡ before.next_command_id

pub publish_and_wait-Answered :
    (k : Config) (timeout connection_id : ℕ) (command : Command) (matches : ℕ → Status → Bool)
    (a : Attempt) (final : Status) (c d : Controller) (w : Waited)
    → publish_and_wait k timeout connection_id command matches a final c ≡ some (w, d)
    → w.verdict ≡ ok tt
    → Answered k
        (matches (on_events k a.events c).next_command_id)
        connection_id
        a.rounds
        (publish_command command (on_events k a.events c))
        w
        d
unfolding publish_and_wait
publish_and_wait-Answered k timeout connection_id command matches a final c d w h v =
    let before : Controller = on_events k a.events c in
    wait_for_status-Answered k (matches before.next_command_id) (a.started_at + timeout)
      connection_id a.rounds final [] (publish_command command before) d w h v

pub acknowledged :
    (k : Config) (predicate : Status → Bool) (connection_id : ℕ) (rounds : List Round) (w : Waited)
    (start before after : Controller)
    → Answered k predicate connection_id rounds start w after
    → (after.current_status.last_command_id == before.next_command_id) ≡ true
    → Acknowledged k connection_id rounds start before after
acknowledged k predicate connection_id rounds w start before after a h = record {
  connected = a.connected;
  connection = a.connection;
  fresh = a.fresh;
  command = ==→eq after.current_status.last_command_id before.next_command_id h;
}

-- A service whose response is a success has had the wait that ends it succeed.
pub verdict_ok :
    (failure success : String) (v : Result String (Unit {0}))
    → (service_response failure success v).success ≡ true
    → v ≡ ok tt
unfolding service_response
verdict_ok failure success (ok tt) h = refl
verdict_ok failure success (err reason) h = absurd (cc)

abbrev pub Ended : Type 0
Ended = Option (Waited × Controller)

pub end_service-ok :
    (failure success : String) (o : Ended) (r : Response) (d : Controller)
    → end_service failure success o ≡ some (r, d)
    → r.success ≡ true
    → (w : Waited) × (c : Controller) × (o ≡ some (w, c)) × (w.verdict ≡ ok tt) × (release c ≡ d)
unfolding end_service
end_service-ok failure success none r d h t = absurd (cc)
end_service-ok failure success (some (w, c)) r d h t =
    let response : service_response failure success w.verdict ≡ r = cc in
    (
      w,
      c,
      refl,
      verdict_ok failure success w.verdict
          (ap {A = Response} (λ (z : Response). z.success) response ∙ t),
      cc,
    )

begun_by_flag :
    (b : Bool) (reason : String) (c : Controller)
    (body : Controller → Option (Response × Controller)) (r : Response) (d : Controller)
    → when_begun (if b then err reason else ok tt, c) body ≡ some (r, d)
    → r.success ≡ true
    → (b ≡ false) × (body c ≡ some (r, d))
unfolding when_begun
begun_by_flag false reason c body r d h t = (refl, h)
begun_by_flag true reason c body r d h t = absurd (cc)

-- A service that succeeds found the flag free, and its body ran with the flag taken.
pub begun-ok :
    (c : Controller) (body : Controller → Option (Response × Controller)) (r : Response)
    (d : Controller)
    → when_begun (begin_operation c) body ≡ some (r, d)
    → r.success ≡ true
    → (c.busy ≡ false) × (body (record c { busy = true }) ≡ some (r, d))
unfolding begin_operation
begun-ok c body r d h t =
    begun_by_flag c.busy "another gripper operation is active" (record c { busy = true }) body r d h
      t

status_by_tests :
    (have connected stale : Bool) (a b e : String) (now s : Status)
    → ◌≡◌ {A = Result String Status}
        (if not have
          then err a
          else if not connected
          then err b
          else if stale
          then err e
          else ok now)
        (ok s)
    → now ≡ s
status_by_tests true true false a b e now s h = cc
status_by_tests false connected stale a b e now s h = absurd (cc)
status_by_tests true false stale a b e now s h = absurd (cc)
status_by_tests true true true a b e now s h = absurd (cc)

pub current_status-ok :
    (k : Config) (now : ℕ) (c : Controller) (s : Status)
    → current_status k now c ≡ ok s
    → c.current_status ≡ s
unfolding current_status
current_status-ok k now c s h =
    status_by_tests c.have_status c.current_status.connected (is_stale k now c)
      "no gripper status has been received"
      (or_text "gripper backend is disconnected" c.current_status.diagnostic)
      "gripper status is stale" c.current_status s h
