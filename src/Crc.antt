-- ===== src/Crc.antt =====
-- The CRC-16 of Modbus RTU, which the repository implements twice.
pub mod Tables
pub mod Lookup
pub mod Bitwise
pub mod Linear
pub mod Agreement
pub mod Detection
