-- ===== src/Node.antt =====
-- sensor_node/main: the state of the sensor node.
pub mod DataModel
pub mod Drivers
pub mod I2cBus
pub mod Tasks
