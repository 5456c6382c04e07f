-- ===== src/ThreeFinger/DriverNode/Admission.antt =====
-- The commands that the driver node admits, and what holds between its steps.
use ur5_ros.Common.{
  ◌==◌, ◌≡◌, ◌≢◌, ◌≤◌, Bool, true, false, Option, none, some, refl, arith, ltb, if◌then◌else◌, ◌&&◌,
  not,
}
use ur5_ros.ThreeFinger.Messages.{Command}
use ur5_ros.ThreeFinger.DriverNode.{
  DriverNode, admits, receive_command, newest, store_command, mode_scissor,
}

-- A command that the gripper may be given.
pub record Admitted (allow : Bool) (c : Command) : Type 0 where
  pub mode : c.mode ≤ 3
  pub command_id : c.command_id ≢ 0
  pub release : c.automatic_release ≡ true → allow ≡ true

unfoldable pub AllAdmitted : Bool → Option Command → Type 0
AllAdmitted allow none = Unit {0}
AllAdmitted allow (some c) = Admitted allow c

-- The delay stays between its two parameters, and what waits to be stored or written is admitted.
pub record Good (n : DriverNode) : Type 0 where
  pub storing : AllAdmitted n.allow_automatic_release n.storing
  pub pending : AllAdmitted n.allow_automatic_release n.pending_command
  pub initial : n.reconnect_initial ≤ n.reconnect_max
  pub lower : n.reconnect_initial ≤ n.reconnect_delay
  pub upper : n.reconnect_delay ≤ n.reconnect_max

pub record Invariant (n : DriverNode) : Type 0 where
  pub good : Good n
  -- Without a connection no command is accepted and none is reported as the last.
  pub idle : n.client.is_open ≡ false → (n.ready_for_commands ≡ false) × (n.last_command_id ≡ 0)

release_allowed :
    (m z auto allow ready : Bool)
    → (if m then false else if z then false else if auto && not allow then false else ready) ≡ true
    → auto ≡ true
    → allow ≡ true
release_allowed m z auto true ready h a = refl
release_allowed true z auto false ready h a = absurd (cc)
release_allowed false true auto false ready h a = absurd (cc)
release_allowed false false false false ready h a = absurd (cc)
release_allowed false false true false ready h a = absurd (cc)

pub admits-Admitted :
    (n : DriverNode) (c : Command) → admits n c ≡ true → Admitted n.allow_automatic_release c
unfolding admits
admits-Admitted n c h = record {
  mode = ground arith;
  command_id = ground arith;
  release =
      release_allowed (ltb mode_scissor c.mode) (c.command_id == 0) c.automatic_release
        n.allow_automatic_release n.ready_for_commands h;
}

if_admitted :
    (n : DriverNode) (c : Command) (b : Bool)
    → admits n c ≡ b
    → AllAdmitted n.allow_automatic_release (if b then some c else none)
unfolding AllAdmitted
if_admitted n c true e = admits-Admitted n c e
if_admitted n c false e = tt

pub receive_command-Invariant :
    (c : Command) (n : DriverNode) → Invariant n → Invariant (receive_command c n)
unfolding receive_command
receive_command-Invariant c n i = record {
  good = record {
    storing = if_admitted n c (admits n c) refl;
    pending = i.good.pending;
    initial = i.good.initial;
    lower = i.good.lower;
    upper = i.good.upper;
  };
  idle = i.idle;
}

stored_Admitted :
    (allow : Bool) (new old : Option Command)
    → AllAdmitted allow new
    → AllAdmitted allow old
    → AllAdmitted allow (newest new old)
unfolding newest
stored_Admitted allow none old p q = q
stored_Admitted allow (some c) old p q = p

pub store_command-Invariant : (n : DriverNode) → Invariant n → Invariant (store_command n)
unfolding store_command AllAdmitted
store_command-Invariant n i = record {
  good = record {
    storing = tt;
    pending =
        stored_Admitted n.allow_automatic_release n.storing n.pending_command i.good.storing
          i.good.pending;
    initial = i.good.initial;
    lower = i.good.lower;
    upper = i.good.upper;
  };
  idle = i.idle;
}
