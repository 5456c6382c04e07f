-- ===== src/RobotiqDriver/HardwareInterface/Handshake/Places.antt =====
-- Where a request for the reactivation of the gripper is, and how the steps move it.
use ur5_ros.Common.{ℕ, ◌≤◌, ◌<◌, ◌≡◌, Bool, true, false, Option, some, none, not}
use ur5_ros.Common.Double.{Double}
use ur5_ros.RobotiqDriver.HardwareInterface.{GripperInterface}
use ur5_ros.RobotiqDriver.HardwareInterface.Handshake.{
  Service, idle, marked, waiting, Thread, looking, restarted, cleared, System,
}

-- With nobody; announced; in the command interface; with the thread; between its stores, before and
-- after the first; in its answer; back at the service.
pub data Place : Type 0 where
  nowhere announced commanded pending performed forgotten answered reported : Place

unfoldable pub service_at : Place → Service
service_at nowhere = idle
service_at announced = marked
service_at _ = waiting

unfoldable pub thread_at : Place → Thread
thread_at performed = restarted
thread_at forgotten = cleared
thread_at _ = looking

unfoldable pub commanded_at : Place → Bool
commanded_at commanded = true
commanded_at _ = false

unfoldable pub pending_at : Place → Bool
pending_at pending = true
pending_at performed = true
pending_at _ = false

unfoldable pub answer_at : Place → Option Bool
answer_at answered = some true
answer_at _ = none

unfoldable pub ResponseAt : (D : Double) → Place → D.Carrier → Type 0
ResponseAt D nowhere x = Unit {0}
ResponseAt D reported x = x ≡ D.of_int 1
ResponseAt D _ x = x ≡ D.of_int 2

-- Once a restart has been performed for the request, the count is beyond that of its beginning.
unfoldable pub CountAt : Place → (asked_at restarts : ℕ) → Type 0
CountAt nowhere a r = Unit {0}
CountAt announced a r = Unit {0}
CountAt commanded a r = a ≤ r
CountAt pending a r = a ≤ r
CountAt _ a r = a < r

-- The four variables of the handshake.
pub record Flags (D : Double) {S : Type 0} (t : Place) (g : GripperInterface D S) : Type 0 where
  pub command : D.is_nan g.reactivate_cmd ≡ not (commanded_at t)
  pub pending : g.reactivate_async_cmd ≡ pending_at t
  pub answer : g.reactivate_async_response ≡ answer_at t
  pub response : ResponseAt D t g.reactivate_response

pub record At (D : Double) {S : Type 0} (s : System D S) (t : Place) : Type 0 where
  pub service : s.service ≡ service_at t
  pub thread : s.thread ≡ thread_at t
  pub flags : Flags D t s.gripper
  pub count : CountAt t s.asked_at s.restarts

unfoldable pub after_read : Place → Place
after_read commanded = pending
after_read answered = reported
after_read t = t
