-- ===== src/ThreeFinger.antt =====
-- The three-finger gripper of the workcell: its messages, its Modbus TCP driver and its controller.
pub mod Messages
pub mod Protocol
pub mod ModbusTcp
pub mod DriverNode
pub mod Controller
pub mod JointMapping
pub mod JointStates
