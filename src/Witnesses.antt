-- ===== src/Witnesses.antt =====
-- The theorems of the other modules at concrete inputs, and runs of the code on inputs that can be
-- followed in the source.
mod Crc
mod DataUtils
mod Driver
mod Sensor
mod ThreeFinger
mod Controller
mod Moves
mod Doubles
mod Hardware
mod Joints
mod FtSensor
mod Rounds
mod Grasps
