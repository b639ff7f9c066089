-- ===== src/Server.antt =====
-- common/net/ws_server.c: the secure WebSocket server of the sensor node.
pub mod Types
pub mod Headers
pub mod Nonces
pub mod Clients
pub mod Authorize
pub mod Sweep
pub mod Ping
pub mod Broadcast
pub mod State
pub mod Frames
pub mod Lifecycle
pub mod Connect
