-- ===== src/Node.antt =====
-- node: the controller of one node, and what it does with users, traffic and devices.
pub mod Users
pub mod Traffic
pub mod Devices
pub mod Controller
pub mod Nodes
mod Tests
