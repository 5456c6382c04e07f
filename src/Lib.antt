-- ===== src/Lib.antt =====
-- The drivers of the UR5 workcell's grippers and of its force-torque sensor, their ROS components and
-- controllers, and what they promise.
--
-- The program has three devices; each has a driver that speaks a Modbus protocol, and a component
-- above the driver that gives it to ROS. The devices do not depend on each other.
--
-- * The two-finger gripper: ur5_ws/src/ros2_robotiq/robotiq_driver. `DefaultDriver` builds frames,
--   sends them through `Serial` with retries and decodes the status; the hardware interface owns a
--   driver and a thread that alone talks to it.
--   Crc models src/crc_utils.cpp (Crc/Tables, Crc/Lookup: `compute_crc`), DataUtils models
--   src/data_utils.cpp, RobotiqDriver/Serial the interface of include/robotiq_driver/serial.hpp and
--   src/default_serial.cpp, RobotiqDriver/SerialFactory its settings and src/default_serial_factory.cpp,
--   RobotiqDriver/Frames the frames and the status of src/default_driver.cpp,
--   and RobotiqDriver/DefaultDriver its member functions under their names. A function that throws
--   is an action that returns a `Result` together with the driver that it leaves.
--   RobotiqDriver/Driver is the interface of include/robotiq_driver/driver.hpp as a record of
--   operations, which DefaultDriver and the fake driver of src/fake/fake_driver.cpp fill, with
--   src/default_driver_factory.cpp; RobotiqDriver/HardwareInterface models src/hardware_interface.cpp
--   over any driver, and RobotiqDriver/ActivationController
--   robotiq_controllers/src/robotiq_activation_controller.cpp. The service of the controller, `read`
--   and the thread hand a request to each other; RobotiqDriver/HardwareInterface/Handshake has their
--   steps in any order, in which each store of the service and of the thread is a step.
-- * The force-torque sensor: ur5_ws/src/ros2_robotiq/robotiq_ft_sensor_hardware.
--   Crc/Bitwise models `rq_com_compute_crc` of src/rq_sensor_com.cpp, Sensor/Listen its
--   `rq_com_listen_stream`, Sensor/Modbus its requests and replies, and Sensor/Machine the
--   connection, the information and the start of the stream, with the states of
--   src/rq_sensor_state.cpp. The static variables are the fields of `Sensor`, `Echo` and `Driver`;
--   a read of the port is a list of bytes, or `none` for an error, and the bytes written to it by the
--   requests and the jam signals are kept in `written`. Sensor/Commands are the commands by
--   number and by name and the search of the device, and Sensor/Hardware the component of
--   src/robotiq_ft_sensor_hardware.cpp and of its header; Sensor/Hardware/Exposed has the rounds of
--   its thread and the calls of ros2_control in any order, each as one step. Sensor/Standalone is the
--   node of nodes/robotiq_ft_sensor_standalone_node.cpp, which reads the same sensor for a publisher of
--   its own; Sensor/Standalone/Rounds compares its callback with a round of the component.
-- * The three-finger gripper: ur5_ws/src/ur5_workcell/robotiq_3f. ThreeFinger/Messages are the
--   messages of robotiq_3f_interfaces, ThreeFinger/Protocol models robotiq_3f_driver/src/protocol.cpp,
--   ThreeFinger/ModbusTcp its src/modbus_tcp_client.cpp and ThreeFinger/DriverNode its
--   src/driver_node.cpp. The node keeps a client, takes commands from a subscription and runs a
--   worker; ThreeFinger/DriverNode has a relation of their steps in any order, in which the check of a
--   command and its storing are two steps, as the lock allows. Its child Parameters is the constructor,
--   Worker the loop of `run` with its sleeps and the diagnostics, and Rounds follows a command from the
--   subscription through the client to the frame on the wire and the status that reports it.
--   ThreeFinger/Controller models robotiq_3f_controller/src/controller_node.cpp: its child Wait is
--   `wait_for_status`, Operations the services `activate` and `deactivate`, Move and GripperCommand
--   the two actions, with the messages in Goals and the conversions in Parameters. The callbacks of
--   the node run on several threads: what they do while an operation runs is a list of events for each
--   round of its wait and before each of its commands; the body of `publish_command` is taken as one
--   step, so that two threads inside it at once are not covered. The statuses of the driver node and the
--   commands of the controller node are the same messages, so that the commands which the one
--   publishes are put to the checks of the other.
--   ThreeFinger/JointMapping models robotiq_3f_state_publisher/src/joint_mapping.cpp and
--   ThreeFinger/JointStates its src/joint_state_publisher_node.cpp.
--
-- Parameters stand for what the repository does not contain: the serial library, the text of
-- exceptions, std::to_string, and the operating system. The system's answers to poll, read_some,
-- write_some and to the clock are arguments of each call of ThreeFinger/ModbusTcp, grouped by the
-- loops that ask for them; where they end the call has not returned. The `double` is the record
-- `Double` of Common/Double, of the operations that the code calls; `Laws` and `ByteLaws` there are
-- what IEEE arithmetic says of them, where a theorem needs it.
--
-- Common has the helpers: Boolean tests, lists over native numbers, the bitwise operations, and the
-- actions that return a result or an exception. Numbers are natural numbers; the wrap-around of a
-- machine integer is written out where the code can reach it. Witnesses has the theorems at concrete
-- inputs, with whole numbers in the place of `double`.
--
-- Bounds. The loop of `activate` of DefaultDriver takes a number of rounds and gives `none` where
-- they end; each round polls once, so one round for each poll until the gripper is ready is enough.
-- The loops of ThreeFinger/ModbusTcp recurse on the answers; a round for each byte is enough where
-- every round transfers something. `wait_for_status` recurses on its rounds, of which those up to
-- the first reading of the clock at its deadline are enough. The loop of the worker recurses on its
-- turns, of which those up to the first that finds the request to stop are enough. The other loops
-- recurse on the counters of the code or on the list of reads.
--
-- Not modelled: the settings of the serial ports and the branches for Windows (system calls), the
-- construction of publishers, services, timers and threads (glue), the default tables of the joint
-- mapping, the tests, and the robot descriptions and launch files.
pub mod Common
pub mod Crc
pub mod DataUtils
pub mod RobotiqDriver
pub mod Sensor
pub mod ThreeFinger
mod Witnesses
