-- ===== src/Node/Tasks.antt =====
-- sensor_node/main/tasks and net: the task of the expanders, that of the sensors, and the commands that come in.
pub mod Checked
pub mod Io
pub mod Sensors
pub mod Commands
mod Tests
