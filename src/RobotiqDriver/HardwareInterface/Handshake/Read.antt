-- ===== src/RobotiqDriver/HardwareInterface/Handshake/Read.antt =====
-- What a read of the hardware interface does to the request for a reactivation.
use ur5_ros.Common.{
  ℕ, ◌≡◌, refl, Bool, true, false, Option, some, none, if◌then◌else◌, not, ◌∙◌, sym,
}
use ur5_ros.Common.Double.{Double, ByteLaws}
use ur5_ros.RobotiqDriver.HardwareInterface.{
  GripperInterface, bool_double, give_response, read, take_request, read_position,
}
use ur5_ros.RobotiqDriver.HardwareInterface.Handshake.{System}
use ur5_ros.RobotiqDriver.HardwareInterface.Handshake.Places.{
  Place, nowhere, announced, commanded, pending, performed, forgotten, answered, reported,
  service_at, thread_at, commanded_at, pending_at, answer_at, ResponseAt, CountAt, Flags, At,
  after_read,
}

not_commanded : (t : Place) → not (commanded_at (after_read t)) ≡ true
unfolding commanded_at after_read
not_commanded commanded = refl
not_commanded nowhere = refl
not_commanded announced = refl
not_commanded pending = refl
not_commanded performed = refl
not_commanded forgotten = refl
not_commanded answered = refl
not_commanded reported = refl

-- A read without an answer keeps the response.
kept_response :
    (D : Double) (t : Place) (x : D.Carrier)
    → none ≡ answer_at t
    → ResponseAt D t x
    → ResponseAt D (after_read t) x × (none ≡ answer_at (after_read t))
unfolding answer_at ResponseAt after_read
kept_response D nowhere x e r = (r, refl)
kept_response D announced x e r = (r, refl)
kept_response D commanded x e r = (r, refl)
kept_response D pending x e r = (r, refl)
kept_response D performed x e r = (r, refl)
kept_response D forgotten x e r = (r, refl)
kept_response D answered x e r = absurd (cc)
kept_response D reported x e r = (r, refl)

-- An answer is there in one place only, and its value is 1.
given_response :
    (D : Double) (t : Place) (b : Bool)
    → some b ≡ answer_at t
    → ResponseAt D (after_read t) (bool_double D b) × (none ≡ answer_at (after_read t))
unfolding answer_at ResponseAt after_read bool_double
given_response D answered true e = (refl, refl)
given_response D answered false e = absurd (cc)
given_response D nowhere b e = absurd (cc)
given_response D announced b e = absurd (cc)
given_response D commanded b e = absurd (cc)
given_response D pending b e = absurd (cc)
given_response D performed b e = absurd (cc)
given_response D forgotten b e = absurd (cc)
given_response D reported b e = absurd (cc)

after_read-At :
    (t : Place)
    → (service_at (after_read t) ≡ service_at t) × (thread_at (after_read t) ≡ thread_at t)
unfolding after_read service_at thread_at
after_read-At nowhere = (refl, refl)
after_read-At announced = (refl, refl)
after_read-At commanded = (refl, refl)
after_read-At pending = (refl, refl)
after_read-At performed = (refl, refl)
after_read-At forgotten = (refl, refl)
after_read-At answered = (refl, refl)
after_read-At reported = (refl, refl)

after_read-CountAt : (t : Place) (a r : ℕ) → CountAt t a r → CountAt (after_read t) a r
unfolding after_read CountAt
after_read-CountAt nowhere a r h = h
after_read-CountAt announced a r h = h
after_read-CountAt commanded a r h = h
after_read-CountAt pending a r h = h
after_read-CountAt performed a r h = h
after_read-CountAt forgotten a r h = h
after_read-CountAt answered a r h = h
after_read-CountAt reported a r h = h

module _ (D : Double) (laws : ByteLaws D) {S : Type 0} where
  take-Flags :
      (b : Bool) (t : Place) (g : GripperInterface D S)
      → D.is_nan g.reactivate_cmd ≡ b
      → Flags D t g
      → (D.is_nan
            (if b
              then g
              else record g { reactivate_async_cmd = true; reactivate_cmd = D.nan }).reactivate_cmd
          ≡ true)
        × ((if b then g else record g {
          reactivate_async_cmd = true;
          reactivate_cmd = D.nan;
        }).reactivate_async_cmd
            ≡ pending_at (after_read t))
  unfolding commanded_at pending_at after_read
  take-Flags true nowhere g e f = (e, f.pending)
  take-Flags true announced g e f = (e, f.pending)
  take-Flags true commanded g e f = absurd (cc)
  take-Flags true pending g e f = (e, f.pending)
  take-Flags true performed g e f = (e, f.pending)
  take-Flags true forgotten g e f = (e, f.pending)
  take-Flags true answered g e f = (e, f.pending)
  take-Flags true reported g e f = (e, f.pending)
  take-Flags false commanded g e f = (laws.nan_lem, refl)
  take-Flags false nowhere g e f = absurd (cc)
  take-Flags false announced g e f = absurd (cc)
  take-Flags false pending g e f = absurd (cc)
  take-Flags false performed g e f = absurd (cc)
  take-Flags false forgotten g e f = absurd (cc)
  take-Flags false answered g e f = absurd (cc)
  take-Flags false reported g e f = absurd (cc)

  give-Flags :
      (o : Option Bool) (t : Place) (h : GripperInterface D S)
      → D.is_nan h.reactivate_cmd ≡ true
      → h.reactivate_async_cmd ≡ pending_at (after_read t)
      → o ≡ answer_at t
      → h.reactivate_async_response ≡ o
      → ResponseAt D t h.reactivate_response
      → Flags D (after_read t) (give_response D o h)
  unfolding give_response
  give-Flags none t h n p a e r =
      let (response, answer) = kept_response D t h.reactivate_response a r in
      record {
        command = n ∙ sym (not_commanded t);
        pending = p;
        answer = e ∙ answer;
        response = response;
      }
  give-Flags (some b) t h n p a e r =
      let (response, answer) = given_response D t b a in
      record {
        command = n ∙ sym (not_commanded t);
        pending = p;
        answer = answer;
        response = response;
      }

  untouched :
      (b : Bool) (g : GripperInterface D S) (t : Place)
      → Flags D t g
      → ((if b then g else record g {
        reactivate_async_cmd = true;
        reactivate_cmd = D.nan;
      }).reactivate_async_response
          ≡ g.reactivate_async_response)
        × ResponseAt D t
            (if b then g else record g {
              reactivate_async_cmd = true;
              reactivate_cmd = D.nan;
            }).reactivate_response
  untouched true g t f = (refl, f.response)
  untouched false g t f = (refl, f.response)

  -- A read takes a request from the command interface, and an answer to the service.
  pub read-Flags :
      (t : Place) (g : GripperInterface D S) → Flags D t g → Flags D (after_read t) (read D g)
  unfolding read take_request
  read-Flags t g f =
      let moved : GripperInterface D S = record g {
        position = read_position D g.current_state g.closed_pos;
      } in
      let same : Flags D t moved = record {
        command = f.command;
        pending = f.pending;
        answer = f.answer;
        response = f.response;
      } in
      let (n, p) = take-Flags (D.is_nan g.reactivate_cmd) t moved refl same in
      let (e, r) = untouched (D.is_nan g.reactivate_cmd) moved t same in
      give-Flags g.reactivate_async_response t (take_request D moved) n p f.answer e r

  pub reads-At :
      (s : System D S) (t : Place)
      → At D s t
      → At D (record s { gripper = read D s.gripper }) (after_read t)
  reads-At s t a =
      let (service, thread) = after_read-At t in
      record {
        service = a.service ∙ sym service;
        thread = a.thread ∙ sym thread;
        flags = read-Flags t s.gripper a.flags;
        count = after_read-CountAt t s.asked_at s.restarts a.count;
      }
