-- ===== src/ThreeFinger/Controller/Invariant/Delivery.antt =====
-- The commands of the controller node, at the checks of the driver node that receives them.
use Prim.Native.String.{String}
use ur5_ros.Common.{
  ◌≡◌, ◌≢◌, ◌≤◌, ◌<◌, ◌+◌, ◌^◌, ◌==◌, ◌&&◌, ◌++◌, ◌∷◌, [], All, All-append, length, length-append,
  ℕ, List, refl, Bool, true, false, not, ltb, if◌then◌else◌, arith,
}
use ur5_ros.Common.Double.{Double}
use ur5_ros.ThreeFinger.Messages.{Command, mode_scissor}
use ur5_ros.ThreeFinger.Controller.{Config, Controller}
use ur5_ros.ThreeFinger.Controller.Parameters.{GripperParameters}
use ur5_ros.ThreeFinger.Controller.Invariant.{Safe, Numbered, none_yet, one_more}
use ur5_ros.ThreeFinger.Controller.Invariant.Reachable.{Reachable, Reachable-AtRest}
use ur5_ros.ThreeFinger.DriverNode.{DriverNode, admits}

-- Until the ids wrap around, the next is one more than the number of commands and none is 0.
record Counted (commands : List Command) (next : ℕ) : Type 0 where
  position : next ≡ length commands + 1
  nonzero : All (λ (c : Command). c.command_id ≢ 0) commands

Numbered-Counted :
    (commands : List Command) (next : ℕ)
    → Numbered commands next
    → length commands + 1 < 2 ^ 64
    → Counted commands next
Numbered-Counted commands next none_yet h = record { position = refl; nonzero = tt }
Numbered-Counted commands next (one_more {commands = before} {next = n} c b e) h =
    let size : length (before ++ c ∷ []) ≡ length before + 1 = length-append before (c ∷ []) in
    let counted : Counted before n = Numbered-Counted before n b (omega arith) in
    let position : n ≡ length before + 1 = counted.position in
    record {
      position = omega arith;
      nonzero =
          All-append (λ (c : Command). c.command_id ≢ 0) before (c ∷ []) counted.nonzero
            (λ z. omega arith, tt);
    }

Safe-admits :
    (n : DriverNode) (c : Command)
    → n.ready_for_commands ≡ true
    → Safe c
    → c.command_id ≢ 0
    → admits n c ≡ true
unfolding admits
Safe-admits n c ready s id =
    let m : c.mode ≤ 3 = s.mode in
    by_tests (ltb mode_scissor c.mode) (c.command_id == 0) c.automatic_release (ground arith)
      (ground arith) s.release
  where
    by_tests :
        (high zero auto : Bool)
        → high ≡ false
        → zero ≡ false
        → auto ≡ false
        → (if high
            then false
            else if zero
            then false
            else if auto && not n.allow_automatic_release
            then false
            else n.ready_for_commands)
          ≡ true
    by_tests high zero auto h z a = rw (h, z, a, ready)

All-admits :
    (n : DriverNode) (commands : List Command)
    → n.ready_for_commands ≡ true
    → All Safe commands
    → All (λ (c : Command). c.command_id ≢ 0) commands
    → All (λ (c : Command). admits n c ≡ true) commands
All-admits n [] ready s id = tt
All-admits n (c ∷ cs) ready s id = (Safe-admits n c ready s.0 id.0, All-admits n cs ready s.1 id.1)

-- In a run of the controller node whose statuses have the modes of the gripper, under a checked
-- activation mode, every command that it has published is admitted by each driver node that is ready
-- for commands, as long as the ids have not wrapped around.
pub Reachable-admits :
    (to_string : ℕ → String) (D : Double) (p : GripperParameters D) (k : Config) (c : Controller)
    → k.activation_mode ≤ 3
    → Reachable to_string D p k c
    → length c.published + 1 < 2 ^ 64
    → (n : DriverNode) → n.ready_for_commands ≡ true
    → All (λ (x : Command). admits n x ≡ true) c.published
Reachable-admits to_string D p k c m r h n ready =
    let rest = Reachable-AtRest to_string D p k c m r in
    let counted = Numbered-Counted c.published c.next_command_id rest.invariant.numbered h in
    All-admits n c.published ready rest.invariant.safe counted.nonzero
