-- ===== src/RobotiqDriver/HardwareInterface/Handshake/Completion.antt =====
-- A request for the reactivation of the gripper is never lost, and the service returns only after it.
use ur5_ros.Common.{◌<◌, ◌≡◌, ◌⊎◌, inl, inr, refl, sym, ◌∙◌, Bool, true, false, some, arith}
use ur5_ros.Common.Double.{Double, ByteLaws, same_double}
use ur5_ros.Common.Result.{ok, err}
use ur5_ros.RobotiqDriver.Driver.{Driver}
use ur5_ros.RobotiqDriver.HardwareInterface.{GripperInterface}
use ur5_ros.RobotiqDriver.ActivationController.{is_waiting, service_success}
use ur5_ros.RobotiqDriver.HardwareInterface.Handshake.{
  idle, waiting, cleared, System, Step, marks, sends, returns, reads, writes, restarts_gripper,
  fails, clears, answers, exchanges, Reachable, at_start, step_to,
}
use ur5_ros.RobotiqDriver.HardwareInterface.Handshake.Places.{
  Place, nowhere, announced, commanded, pending, performed, forgotten, answered, reported,
  service_at, thread_at, commanded_at, pending_at, answer_at, ResponseAt, CountAt, At, after_read,
}
use ur5_ros.RobotiqDriver.HardwareInterface.Handshake.Read.{reads-At}
use ur5_ros.RobotiqDriver.HardwareInterface.Handshake.Calls.{restart-Flags, exchange_commands-Flags}
use ur5_ros.RobotiqDriver.HardwareInterface.Handshake.Moves.{
  At-moved, idle-nowhere, marked-announced, restarted-performed, cleared-forgotten, looking-pending,
  marks-At, sends-At, writes-At, restarts-At, clears-At, answers-At, calls-At,
}

-- While the service waits, its request is with the command interface, with the thread, or answered;
-- and a response is that of a restart that was performed after the request.
pub record Sound (D : Double) {S : Type 0} (s : System D S) : Type 0 where
  pub under_way :
      s.service ≡ waiting
      → is_waiting D s.gripper ≡ true
      → (D.is_nan s.gripper.reactivate_cmd ≡ false)
        ⊎ (s.gripper.reactivate_async_cmd ≡ true)
        ⊎ (s.thread ≡ cleared)
        ⊎ (s.gripper.reactivate_async_response ≡ some true)
  pub restarted_since :
      s.service ≡ waiting
      → is_waiting D s.gripper ≡ false
      → (service_success D s.gripper ≡ true) × (s.asked_at < s.restarts)

module _ (D : Double) (laws : ByteLaws D) where
  response_waits :
      {S : Type 0} (g : GripperInterface D S)
      → g.reactivate_response ≡ D.of_int 2
      → is_waiting D g ≡ true
  unfolding is_waiting same_double
  response_waits g h = rw (h, laws.of_int_number 2, laws.of_int-le 2 2 (omega arith) (omega arith))

  response_done :
      {S : Type 0} (g : GripperInterface D S)
      → g.reactivate_response ≡ D.of_int 1
      → (is_waiting D g ≡ false) × (service_success D g ≡ true)
  unfolding is_waiting service_success same_double
  response_done g h = (
    rw (
      h,
      laws.of_int_number 1,
      laws.of_int_number 2,
      laws.of_int-below 1 2 (omega arith) (omega arith),
    ),
    rw (
      h,
      laws.of_int_number 1,
      laws.of_int_number 0,
      laws.of_int-le 0 1 (omega arith) (omega arith),
      laws.of_int-below 0 1 (omega arith) (omega arith),
    ),
  )

  still_waits :
      {S : Type 0} {P : Type 0} (g : GripperInterface D S)
      → g.reactivate_response ≡ D.of_int 2
      → is_waiting D g ≡ false
      → P
  still_waits g h w = absurd (clash (is_waiting D g) (response_waits g h) w)
    where
      clash : (b : Bool) → b ≡ true → b ≡ false → ⊥
      clash b e f = cc

  At-Sound : {S : Type 0} (s : System D S) (t : Place) → At D s t → Sound D s
  unfolding service_at thread_at commanded_at pending_at answer_at ResponseAt CountAt
  At-Sound s nowhere a = record {
    under_way = λ h w. absurd (cc);
    restarted_since = λ h w. absurd (cc);
  }
  At-Sound s announced a = record {
    under_way = λ h w. absurd (cc);
    restarted_since = λ h w. absurd (cc);
  }
  At-Sound s commanded a = record {
    under_way = λ h w. inl a.flags.command;
    restarted_since = λ h w. still_waits s.gripper a.flags.response w;
  }
  At-Sound s pending a = record {
    under_way = λ h w. inr (inl a.flags.pending);
    restarted_since = λ h w. still_waits s.gripper a.flags.response w;
  }
  At-Sound s performed a = record {
    under_way = λ h w. inr (inl a.flags.pending);
    restarted_since = λ h w. still_waits s.gripper a.flags.response w;
  }
  At-Sound s forgotten a = record {
    under_way = λ h w. inr (inr (inl a.thread));
    restarted_since = λ h w. still_waits s.gripper a.flags.response w;
  }
  At-Sound s answered a = record {
    under_way = λ h w. inr (inr (inr a.flags.answer));
    restarted_since = λ h w. still_waits s.gripper a.flags.response w;
  }
  At-Sound s reported a =
      let (done, success) = response_done s.gripper a.flags.response in
      record {
        under_way = λ h w. absurd (differ (is_waiting D s.gripper) done w);
        restarted_since = λ h w. (success, a.count);
      }
    where
      differ : (b : Bool) → b ≡ false → b ≡ true → ⊥
      differ b e f = cc

  returns-At :
      {S : Type 0} (s : System D S) (t : Place)
      → At D s t
      → s.service ≡ waiting
      → is_waiting D s.gripper ≡ false
      → At D (record s { service = idle }) nowhere
  unfolding service_at thread_at commanded_at pending_at answer_at ResponseAt CountAt
  returns-At s nowhere a h w = absurd (cc)
  returns-At s announced a h w = absurd (cc)
  returns-At s commanded a h w = still_waits s.gripper a.flags.response w
  returns-At s pending a h w = still_waits s.gripper a.flags.response w
  returns-At s performed a h w = still_waits s.gripper a.flags.response w
  returns-At s forgotten a h w = still_waits s.gripper a.flags.response w
  returns-At s answered a h w = still_waits s.gripper a.flags.response w
  returns-At s reported a h w = record {
    service = refl;
    thread = a.thread;
    flags = record {
      command = a.flags.command;
      pending = a.flags.pending;
      answer = a.flags.answer;
      response = tt;
    };
    count = tt;
  }

module _ (D : Double) (laws : ByteLaws D) (driver : Driver) where
  Step-At :
      (s u : System D driver.State) (t : Place)
      → At D s t
      → Step D driver s u
      → (v : Place) × At D u v
  Step-At s u t a (marks h) = (
    announced,
    marks-At D laws driver s
        (At-moved D laws driver s t nowhere (idle-nowhere t (sym a.service ∙ h)) a),
  )
  Step-At s u t a (sends h) = (
    commanded,
    sends-At D laws driver s
        (At-moved D laws driver s t announced (marked-announced t (sym a.service ∙ h)) a),
  )
  Step-At s u t a (returns h w) = (nowhere, returns-At D laws s t a h w)
  Step-At s u t a reads = (after_read t, reads-At D laws s t a)
  Step-At s u t a writes = (t, writes-At D laws driver s t a)
  Step-At s u t a (restarts_gripper rounds g h p e) =
      let same : t ≡ pending = looking-pending t (sym a.thread ∙ h) (sym a.flags.pending ∙ p) in
      let here : At D s pending = At-moved D laws driver s t pending same a in
      (
        performed,
        restarts-At D laws driver s g
            (restart-Flags D driver pending rounds s.gripper g (ok tt) e here.flags) here,
      )
  Step-At s u t a (fails rounds g x h p e) = (
    t,
    calls-At D laws driver s t g (restart-Flags D driver t rounds s.gripper g (err x) e a.flags) a,
  )
  Step-At s u t a (clears h) = (
    forgotten,
    clears-At D laws driver s
        (At-moved D laws driver s t performed (restarted-performed t (sym a.thread ∙ h)) a),
  )
  Step-At s u t a (answers h) = (
    answered,
    answers-At D laws driver s
        (At-moved D laws driver s t forgotten (cleared-forgotten t (sym a.thread ∙ h)) a),
  )
  Step-At s u t a (exchanges r g h e) = (
    t,
    calls-At D laws driver s t g (exchange_commands-Flags D driver t s.gripper g r e a.flags) a,
  )

  Reachable-At :
      (start s : System D driver.State)
      → At D start nowhere
      → Reachable D driver start s
      → (t : Place) × At D s t
  Reachable-At start s a at_start = (nowhere, a)
  Reachable-At start s a (step_to {s = r} run step) =
      let (t, here) = Reachable-At start r a run in Step-At r s t here step

  -- From a state without a request, in any order of the service, the control loop and the thread,
  -- and whatever the driver answers: while the service waits its request is not lost, and it returns
  -- only with success and after a restart of the gripper that was performed after the request was sent.
  pub Reachable-Sound :
      (start s : System D driver.State)
      → At D start nowhere
      → Reachable D driver start s
      → Sound D s
  Reachable-Sound start s a run =
      let (t, here) = Reachable-At start s a run in At-Sound D laws s t here
