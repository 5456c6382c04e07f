-- ===== src/RobotiqDriver.antt =====
-- The package robotiq_driver, a two-finger gripper over Modbus RTU, and the activation controller of
-- robotiq_controllers.
pub mod Serial
pub mod Frames
pub mod DefaultDriver
pub mod Driver
pub mod HardwareInterface
pub mod ActivationController
pub mod SerialFactory
