-- ===== src/ThreeFinger/DriverNode/Stages.antt =====
-- The stages of a round of the worker, each against what it leaves.
use ur5_ros.Common.{ℕ, ◌≡◌, Bool, true, false, Option, none, some, refl, if◌then◌else◌}
use ur5_ros.Common.Result.{Result, ok, err, run_on}
use ur5_ros.ThreeFinger.Messages.{Command}
use ur5_ros.ThreeFinger.ModbusTcp.{read_status}
use ur5_ros.ThreeFinger.ModbusTcp.System.{ModbusError, Client}
use ur5_ros.ThreeFinger.ModbusTcp.Transact.{read_status_open}
use ur5_ros.ThreeFinger.DriverNode.{
  DriverNode, Failure, put_client, write_packed, write_pending, on_client, left_pending,
  exchange_round, ProcessImage, Exchange, publish_image, Round, write_command, pack_command,
  publish_status, take_pending,
}
use ur5_ros.ThreeFinger.DriverNode.Admission.{AllAdmitted, Good}

-- What a stage of a round leaves when it returns and when it throws.
unfoldable pub Post :
    {A : Type 0}
    → (returns throws : DriverNode → Type 0) → Option (Result Failure A × DriverNode)
    → Type 0
Post returns throws none = Unit {0}
Post returns throws (some (ok a, n)) = returns n
Post returns throws (some (err e, n)) = throws n

pub set_client :
    (n : DriverNode) (c : Client) (last : ℕ)
    → Good n
    → Good (record n { client = c; last_command_id = last })
set_client n c last g = record {
  storing = g.storing;
  pending = g.pending;
  initial = g.initial;
  lower = g.lower;
  upper = g.upper;
}

written-Post :
    (c : Command) (n : DriverNode) (o : Option (Result ModbusError (Unit {0}) × Client))
    → Good n
    → Post Good Good
        (run_on (put_client o n) (λ _ m. some (ok tt, record m { last_command_id = c.command_id })))
unfolding Post put_client
written-Post c n none g = tt
written-Post c n (some (ok x, d)) g = set_client n d c.command_id g
written-Post c n (some (err e, d)) g = set_client n d n.last_command_id g

Good-returned : (n : DriverNode) → Good n → Post {A = Unit {0}} Good Good (some (ok tt, n))
unfolding Post
Good-returned n g = g

write_packed-Post :
    (c : Command) (image : Option ProcessImage) (x : Exchange) (n : DriverNode)
    → Good n
    → Post Good Good (write_packed c image x n)
unfolding write_packed Post on_client
write_packed-Post c none x n g = g
write_packed-Post c (some image) x n g = written-Post c n (write_command image x n.client) g

write_pending-Post :
    (o : Option Command) (x : Exchange) (n : DriverNode)
    → Good n
    → Post Good Good (write_pending o x n)
unfolding write_pending
write_pending-Post none x n g = Good-returned n g
write_pending-Post (some c) x n g = write_packed-Post c (pack_command c) x n g

unfoldable pub Running : DriverNode → Type 0
Running n = Good n × (n.client.is_open ≡ true)

published-Post :
    (now : ℕ) (n : DriverNode) (o : Option (Result ModbusError ProcessImage × Client))
    → Good n
    → ((image : ProcessImage) (c : Client) → o ≡ some (ok image, c) → c.is_open ≡ true)
    → Post Running Good (run_on (put_client o n) (publish_image now))
unfolding Post put_client publish_image Running publish_status
published-Post now n none g h = tt
published-Post now n (some (ok image, d)) g h = (
  record {
    storing = g.storing;
    pending = g.pending;
    initial = g.initial;
    lower = g.lower;
    upper = g.upper;
  },
  h image d refl,
)
published-Post now n (some (err e, d)) g h = set_client n d n.last_command_id g

then_poll-Post :
    (r : Round) (o : Option (Result Failure (Unit {0}) × DriverNode))
    → Post Good Good o
    → Post Running Good
        (run_on o (λ _ m. run_on (on_client (read_status r.read) m) (publish_image r.now)))
unfolding Post on_client
then_poll-Post r none p = tt
then_poll-Post r (some (ok x, n)) p =
    published-Post r.now n (read_status r.read n.client) p
      (λ image c e. read_status_open r.read image n.client c e)
then_poll-Post r (some (err e, n)) p = p

left_Good : (n : DriverNode) → Good n → Good (record n { pending_command = left_pending n })
unfolding left_pending AllAdmitted
left_Good n g = record {
  storing = g.storing;
  pending = left n.ready_for_commands g.pending;
  initial = g.initial;
  lower = g.lower;
  upper = g.upper;
}
  where
    left :
        (b : Bool)
        → AllAdmitted n.allow_automatic_release n.pending_command
        → AllAdmitted n.allow_automatic_release (if b then none else n.pending_command)
    left true p = tt
    left false p = p

pub exchange_round-Post :
    (r : Round) (n : DriverNode) → Good n → Post Running Good (exchange_round r n)
unfolding exchange_round
exchange_round-Post r n g =
    then_poll-Post r
      (write_pending (take_pending n) r.write (record n { pending_command = left_pending n }))
      (write_pending-Post (take_pending n) r.write (record n { pending_command = left_pending n })
        (left_Good n g))
