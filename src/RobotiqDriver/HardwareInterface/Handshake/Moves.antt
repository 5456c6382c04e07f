-- ===== src/RobotiqDriver/HardwareInterface/Handshake/Moves.antt =====
-- The steps of the handshake from the one place at which each can happen to the next.
use mathlib.Core.Path.{subst}
use ur5_ros.Common.{◌+◌, ◌≤◌, ◌≡◌, refl, true, false, some, arith}
use ur5_ros.Common.Double.{Double, ByteLaws}
use ur5_ros.RobotiqDriver.Driver.{Driver}
use ur5_ros.RobotiqDriver.HardwareInterface.{GripperInterface, write}
use ur5_ros.RobotiqDriver.ActivationController.{mark_waiting, send_request}
use ur5_ros.RobotiqDriver.HardwareInterface.Handshake.{
  idle, marked, waiting, looking, restarted, cleared, System,
}
use ur5_ros.RobotiqDriver.HardwareInterface.Handshake.Places.{
  Place, nowhere, announced, commanded, pending, performed, forgotten, answered, reported,
  service_at, thread_at, commanded_at, pending_at, answer_at, ResponseAt, CountAt, Flags, At,
}

pub idle-nowhere : (t : Place) → service_at t ≡ idle → t ≡ nowhere
unfolding service_at
idle-nowhere nowhere h = refl
idle-nowhere announced h = absurd (cc)
idle-nowhere commanded h = absurd (cc)
idle-nowhere pending h = absurd (cc)
idle-nowhere performed h = absurd (cc)
idle-nowhere forgotten h = absurd (cc)
idle-nowhere answered h = absurd (cc)
idle-nowhere reported h = absurd (cc)

pub marked-announced : (t : Place) → service_at t ≡ marked → t ≡ announced
unfolding service_at
marked-announced announced h = refl
marked-announced nowhere h = absurd (cc)
marked-announced commanded h = absurd (cc)
marked-announced pending h = absurd (cc)
marked-announced performed h = absurd (cc)
marked-announced forgotten h = absurd (cc)
marked-announced answered h = absurd (cc)
marked-announced reported h = absurd (cc)

pub restarted-performed : (t : Place) → thread_at t ≡ restarted → t ≡ performed
unfolding thread_at
restarted-performed performed h = refl
restarted-performed nowhere h = absurd (cc)
restarted-performed announced h = absurd (cc)
restarted-performed commanded h = absurd (cc)
restarted-performed pending h = absurd (cc)
restarted-performed forgotten h = absurd (cc)
restarted-performed answered h = absurd (cc)
restarted-performed reported h = absurd (cc)

pub cleared-forgotten : (t : Place) → thread_at t ≡ cleared → t ≡ forgotten
unfolding thread_at
cleared-forgotten forgotten h = refl
cleared-forgotten nowhere h = absurd (cc)
cleared-forgotten announced h = absurd (cc)
cleared-forgotten commanded h = absurd (cc)
cleared-forgotten pending h = absurd (cc)
cleared-forgotten performed h = absurd (cc)
cleared-forgotten answered h = absurd (cc)
cleared-forgotten reported h = absurd (cc)

pub looking-pending : (t : Place) → thread_at t ≡ looking → pending_at t ≡ true → t ≡ pending
unfolding thread_at pending_at
looking-pending pending h p = refl
looking-pending nowhere h p = absurd (cc)
looking-pending announced h p = absurd (cc)
looking-pending commanded h p = absurd (cc)
looking-pending performed h p = absurd (cc)
looking-pending forgotten h p = absurd (cc)
looking-pending answered h p = absurd (cc)
looking-pending reported h p = absurd (cc)

module _ (D : Double) (laws : ByteLaws D) (driver : Driver) where
  abbrev pub Sys : Type 0
  Sys = System D driver.State

  -- The place of a state that is known to be one of the eight.
  pub At-moved : (s : Sys) (t u : Place) → t ≡ u → At D s t → At D s u
  At-moved s t u e a = subst (At D s) e a

  pub marks-At :
      (s : Sys)
      → At D s nowhere
      → At D (record s { gripper = mark_waiting D s.gripper; service = marked }) announced
  unfolding service_at thread_at commanded_at pending_at answer_at ResponseAt CountAt mark_waiting
  marks-At s a = record {
    service = refl;
    thread = a.thread;
    flags = record {
      command = a.flags.command;
      pending = a.flags.pending;
      answer = a.flags.answer;
      response = refl;
    };
    count = tt;
  }

  pub sends-At :
      (s : Sys)
      → At D s announced
      → At D
          (record s {
            gripper = send_request D s.gripper;
            service = waiting;
            asked_at = s.restarts;
          })
          commanded
  unfolding service_at thread_at commanded_at pending_at answer_at ResponseAt CountAt send_request
  sends-At s a = record {
    service = refl;
    thread = a.thread;
    flags = record {
      command = laws.of_int_number 1;
      pending = a.flags.pending;
      answer = a.flags.answer;
      response = a.flags.response;
    };
    count = omega arith;
  }

  pub writes-At :
      (s : Sys) (t : Place) → At D s t → At D (record s { gripper = write D s.gripper }) t
  unfolding write
  writes-At s t a = record {
    service = a.service;
    thread = a.thread;
    flags = record {
      command = a.flags.command;
      pending = a.flags.pending;
      answer = a.flags.answer;
      response = a.flags.response;
    };
    count = a.count;
  }

  pub restarts-At :
      (s : Sys) (g : GripperInterface D driver.State)
      → Flags D pending g
      → At D s pending
      → At D (record s { gripper = g; thread = restarted; restarts = s.restarts + 1 }) performed
  unfolding service_at thread_at commanded_at pending_at answer_at ResponseAt CountAt
  restarts-At s g f a =
      let count : s.asked_at ≤ s.restarts = a.count in
      record {
        service = a.service;
        thread = refl;
        flags = record {
          command = f.command;
          pending = f.pending;
          answer = f.answer;
          response = f.response;
        };
        count = omega arith;
      }

  pub clears-At :
      (s : Sys)
      → At D s performed
      → At D
          (record s {
            gripper = record s.gripper { reactivate_async_cmd = false };
            thread = cleared;
          })
          forgotten
  unfolding service_at thread_at commanded_at pending_at answer_at ResponseAt CountAt
  clears-At s a = record {
    service = a.service;
    thread = refl;
    flags = record {
      command = a.flags.command;
      pending = refl;
      answer = a.flags.answer;
      response = a.flags.response;
    };
    count = a.count;
  }

  pub answers-At :
      (s : Sys)
      → At D s forgotten
      → At D
          (record s {
            gripper = record s.gripper { reactivate_async_response = some true };
            thread = looking;
          })
          answered
  unfolding service_at thread_at commanded_at pending_at answer_at ResponseAt CountAt
  answers-At s a = record {
    service = a.service;
    thread = refl;
    flags = record {
      command = a.flags.command;
      pending = a.flags.pending;
      answer = refl;
      response = a.flags.response;
    };
    count = a.count;
  }

  pub calls-At :
      (s : Sys) (t : Place) (g : GripperInterface D driver.State)
      → Flags D t g
      → At D s t
      → At D (record s { gripper = g }) t
  calls-At s t g f a = record { service = a.service; thread = a.thread; flags = f; count = a.count }
