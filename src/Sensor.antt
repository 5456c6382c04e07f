-- ===== src/Sensor.antt =====
-- robotiq_ft_sensor_hardware: the driver of the force-torque sensor.
pub mod Listen
pub mod Modbus
pub mod Machine
pub mod Commands
pub mod Hardware
pub mod Standalone
