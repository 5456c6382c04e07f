-- ===== src/ThreeFinger/JointStates.antt =====
-- robotiq_3f_state_publisher/src/joint_state_publisher_node.cpp: the joint states that follow from the
-- statuses of the gripper. The tables are those of the parameters.
use Prim.Native.String.{String}
use ur5_ros.Common.{
  ℕ, not, Bool, true, false, ◌&&◌, ◌||◌, List, [], ◌∷◌, ◌++◌, Option, some, none, if◌then◌else◌,
}
use ur5_ros.Common.Double.{Double}
use ur5_ros.ThreeFinger.Messages.{Status}
use ur5_ros.ThreeFinger.JointMapping.{
  PiecewiseLinearMap, FingerMaps, GripperJointMapper, piecewise_linear_map, map_joints, joint_names,
}

-- sensor_msgs/JointState, of which the node uses the time, the names and the positions.
pub record JointState (D : Double) : Type 0 where
  pub stamp : ℕ
  pub name : List String
  pub position : List D.Carrier

-- `published` are the joint states in their order.
pub record JointStatePublisher (D : Double) : Type 0 where
  pub mapper : GripperJointMapper D
  pub joint_state : JointState D
  pub publish_reference_without_status : Bool
  pub require_activated_status : Bool
  pub have_valid_status : Bool
  pub published : List (JointState D)

-- The breakpoints and angles of a finger, and of the scissor, as they are declared.
pub record FingerTable (D : Double) : Type 0 where
  pub breakpoints : List D.Carrier
  pub proximal : List D.Carrier
  pub middle : List D.Carrier
  pub distal : List D.Carrier

module _ (D : Double) where
  unfoldable pub finger_maps_of :
      (proximal middle distal : Option (PiecewiseLinearMap D)) → Option (FingerMaps D)
  finger_maps_of (some p) (some m) (some d) = some (record { proximal = p; middle = m; distal = d })
  finger_maps_of none _ _ = none
  finger_maps_of (some _) none _ = none
  finger_maps_of (some _) (some _) none = none

  unfoldable pub finger_maps : FingerTable D → Option (FingerMaps D)
  finger_maps t =
      finger_maps_of (piecewise_linear_map D t.breakpoints t.proximal)
        (piecewise_linear_map D t.breakpoints t.middle)
        (piecewise_linear_map D t.breakpoints t.distal)

  unfoldable pub mapper_of :
      (finger pinch : Option (FingerMaps D))
      → (scissor : Option (PiecewiseLinearMap D)) → Option (GripperJointMapper D)
  mapper_of (some f) (some p) (some s) =
      some (record { finger_maps = f; pinch_finger_maps = p; scissor_map = s })
  mapper_of none _ _ = none
  mapper_of (some _) none _ = none
  mapper_of (some _) (some _) none = none

  -- The state that the constructor leaves; `rate_positive` is its check of the publish rate.
  unfoldable pub started :
      (tf_prefix : String)
      → (reference require_activated rate_positive : Bool) → Option (GripperJointMapper D)
      → Option (JointStatePublisher D)
  started tf_prefix reference require_activated rate_positive none = none
  started tf_prefix reference require_activated rate_positive (some mapper) =
      if not rate_positive
      then none
      else some (record {
        mapper = mapper;
        joint_state = record {
          stamp = 0;
          name = joint_names tf_prefix;
          position = map_joints D mapper 0 6 6 6 137;
        };
        publish_reference_without_status = reference;
        require_activated_status = require_activated;
        have_valid_status = false;
        published = [];
      })

  -- `none` is the std::invalid_argument of a table or of the rate.
  unfoldable pub new_publisher :
      (finger pinch : FingerTable D)
      → (scissor_breakpoints scissor : List D.Carrier) → (tf_prefix : String)
      → (reference require_activated rate_positive : Bool) → Option (JointStatePublisher D)
  new_publisher finger pinch scissor_breakpoints scissor tf_prefix reference require_activated
        rate_positive =
      started tf_prefix reference require_activated rate_positive (
        mapper_of (finger_maps finger) (finger_maps pinch)
          (piecewise_linear_map D scissor_breakpoints scissor))

  unfoldable pub ignores : JointStatePublisher D → Status → Bool
  ignores n s = not s.connected || n.require_activated_status && not s.activated

  unfoldable pub status_callback : Status → JointStatePublisher D → JointStatePublisher D
  status_callback s n = if ignores n s then n else record n {
    joint_state = record n.joint_state {
      position =
          map_joints D n.mapper s.mode s.actual_position_a s.actual_position_b s.actual_position_c
            s.actual_position_scissor;
    };
    have_valid_status = true;
  }

  unfoldable pub publish : (now : ℕ) → JointStatePublisher D → JointStatePublisher D
  publish now n =
      let stamped : JointState D = record n.joint_state { stamp = now } in
      if not n.have_valid_status && not n.publish_reference_without_status
      then n
      else record n { joint_state = stamped; published = n.published ++ stamped ∷ [] }
