-- ===== src/ThreeFinger/Controller/Invariant.antt =====
-- What holds of the state of the controller node whatever its threads do: the commands it has
-- published are numbered in their order, none is of an invalid mode or an automatic release.
pub mod Services
pub mod Actions
pub mod Reachable
pub mod Delivery
use Prim.Native.String.{String}
use mathlib.Core.Path.{subst}
use ur5_ros.Common.{
  ℕ, ◌+◌, ◌%◌, ◌^◌, ◌≤◌, ◌≡◌, refl, Bool, true, false, if◌then◌else◌, List, [], ◌∷◌, ◌++◌, All,
  All-append, Option, none, some,
}
use ur5_ros.Common.Result.{Result, ok, err}
use ur5_ros.ThreeFinger.Messages.{Command, Status, empty_command}
use ur5_ros.ThreeFinger.Controller.{
  Config, Controller, Event, status_received, stop_called, operation_requested, node_destroyed,
  receive_status, current_status, on_event, on_events, publish_command, numbered, begin_operation,
  stop, stop_from, stopped_command,
}
use ur5_ros.ThreeFinger.Controller.Wait.{Round, Waited, wait_for_status}
use ur5_ros.ThreeFinger.Controller.Wait.Keeping.{on_events-keep, wait_for_status-keep}
use ur5_ros.ThreeFinger.Controller.Operations.{Attempt, publish_and_wait}
use ur5_ros.ThreeFinger.Controller.Operations.Services.{current_status-ok}

-- The published commands have the ids from 1 on, which wrap around, and the second index is the next.
pub data Numbered : List Command → ℕ → Type 0 where
  none_yet : Numbered [] 1
  one_more :
      {commands : List Command} {next : ℕ} (c : Command)
      → Numbered commands next
      → c.command_id ≡ next
      → Numbered (commands ++ c ∷ []) ((next + 1) % 2 ^ 64)

pub record Safe (c : Command) : Type 0 where
  pub mode : c.mode ≤ 3
  pub release : c.automatic_release ≡ false

pub record Invariant (c : Controller) : Type 0 where
  pub numbered : Numbered c.published c.next_command_id
  pub safe : All Safe c.published
  pub last : Safe c.last_command
  pub status : c.current_status.mode ≤ 3

-- The mode of a status takes two bits of the gripper's process image.
unfoldable pub ValidEvent : Event → Type 0
ValidEvent (status_received s now) = s.mode ≤ 3
ValidEvent (stop_called now) = Unit {0}
ValidEvent operation_requested = Unit {0}
ValidEvent node_destroyed = Unit {0}

unfoldable pub ValidEvents : List Event → Type 0
ValidEvents es = All ValidEvent es

unfoldable pub ValidRound : Round → Type 0
ValidRound r = ValidEvents r.events

pub record ValidAttempt (a : Attempt) : Type 0 where
  pub events : ValidEvents a.events
  pub rounds : All ValidRound a.rounds

pub publish_command-Invariant :
    (command : Command) (c : Controller)
    → Safe command
    → Invariant c
    → Invariant (publish_command command c)
unfolding publish_command numbered
publish_command-Invariant command c s i =
    let sent : Safe (record command { command_id = c.next_command_id }) = record {
      mode = s.mode;
      release = s.release;
    } in
    record {
      numbered = one_more (record command { command_id = c.next_command_id }) i.numbered refl;
      safe =
          All-append Safe c.published (record command { command_id = c.next_command_id } ∷ [])
            i.safe (sent, tt);
      last = sent;
      status = i.status;
    }

pub set_flags :
    (c : Controller) (busy down : Bool)
    → Invariant c
    → Invariant (record c { busy = busy; shutting_down = down })
set_flags c busy down i = record {
  numbered = i.numbered;
  safe = i.safe;
  last = i.last;
  status = i.status;
}

stopped-Safe :
    (have : Bool) (last : Command) (s : Status)
    → Safe last
    → s.mode ≤ 3
    → Safe
        (record (if have
          then last
          else record empty_command { activate = s.activated; mode = s.mode }) {
            go_to = false;
            automatic_release = false;
          })
stopped-Safe true last s p m = record { mode = p.mode; release = refl }
stopped-Safe false last s p m = record { mode = m; release = refl }

stop_from-Invariant :
    (c : Controller) (r : Result String Status)
    → ((s : Status) → r ≡ ok s → c.current_status ≡ s)
    → Invariant c
    → Invariant (stop_from c r).1
unfolding stop_from stopped_command
stop_from-Invariant c (err reason) e i = i
stop_from-Invariant c (ok s) e i =
    publish_command-Invariant
      (record (stopped_command c s) { go_to = false; automatic_release = false }) c
      (stopped-Safe c.have_command c.last_command s i.last
        (subst (λ (z : Status). z.mode ≤ 3) (e s refl) i.status))
      i

pub stop-Invariant :
    (k : Config) (now : ℕ) (c : Controller) → Invariant c → Invariant (stop k now c).1
unfolding stop
stop-Invariant k now c i =
    stop_from-Invariant c (current_status k now c) (λ s e. current_status-ok k now c s e) i

stop_from-busy : (c : Controller) (r : Result String Status) → (stop_from c r).1.busy ≡ c.busy
unfolding stop_from publish_command
stop_from-busy c (err reason) = refl
stop_from-busy c (ok s) = refl

pub stop-busy : (k : Config) (now : ℕ) (c : Controller) → (stop k now c).1.busy ≡ c.busy
unfolding stop
stop-busy k now c = stop_from-busy c (current_status k now c)

pub receive_status-Invariant :
    (s : Status) (now : ℕ) (c : Controller)
    → s.mode ≤ 3
    → Invariant c
    → Invariant (receive_status s now c)
unfolding receive_status
receive_status-Invariant s now c m i = record {
  numbered = i.numbered;
  safe = i.safe;
  last = i.last;
  status = m;
}

pub on_event-Invariant :
    (k : Config) (e : Event) (c : Controller)
    → ValidEvent e
    → Invariant c
    → Invariant (on_event k e c)
unfolding on_event ValidEvent begin_operation
on_event-Invariant k (status_received s now) c v i = receive_status-Invariant s now c v i
on_event-Invariant k (stop_called now) c v i = stop-Invariant k now c i
on_event-Invariant k operation_requested c v i = set_flags c true c.shutting_down i
on_event-Invariant k node_destroyed c v i = set_flags c c.busy true i

pub on_events-Invariant :
    (k : Config) (es : List Event) (c : Controller)
    → ValidEvents es
    → Invariant c
    → Invariant (on_events k es c)
unfolding ValidEvents
on_events-Invariant k es c v i =
    on_events-keep k Invariant ValidEvent (λ e d. on_event-Invariant k e d) es c v i

-- What a run leaves where it returns.
unfoldable pub Leaves : {A : Type 0} → (Controller → Type 0) → Option (A × Controller) → Type 0
Leaves P none = Unit {0}
Leaves P (some (a, c)) = P c

pub publish_and_wait-Invariant :
    (k : Config) (timeout connection_id : ℕ) (command : Command) (matches : ℕ → Status → Bool)
    (a : Attempt) (final : Status) (c : Controller)
    → ValidAttempt a
    → Safe command
    → Invariant c
    → Leaves Invariant (publish_and_wait k timeout connection_id command matches a final c)
unfolding publish_and_wait ValidRound ValidEvents Leaves
publish_and_wait-Invariant k timeout connection_id command matches a final c v s i =
    by_end
      (wait_for_status k (matches before.next_command_id) (a.started_at + timeout) connection_id
        a.rounds final [] (publish_command command before))
      refl
  where
    before : Controller
    before = on_events k a.events c

    started : Invariant (publish_command command before)
    started =
        publish_command-Invariant command before s (on_events-Invariant k a.events c v.events i)

    by_end :
        (o : Option (Waited × Controller))
        → wait_for_status k
            (matches before.next_command_id)
            (a.started_at + timeout)
            connection_id
            a.rounds
            final
            []
            (publish_command command before)
          ≡ o
        → Leaves Invariant o
    by_end none e = tt
    by_end (some (w, d)) e =
        wait_for_status-keep k Invariant ValidEvent (λ x y. on_event-Invariant k x y)
          (matches before.next_command_id) (a.started_at + timeout) connection_id a.rounds final []
          (publish_command command before) d w e v.rounds started
