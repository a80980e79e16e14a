-- ===== src/Sing.antt =====
-- core/sing: the users of the sing-box core, their connections and their traffic. The inbounds of the
-- sing-box library are a state of its own that the library's calls change.
pub mod Hook
pub mod Race
pub mod Users
pub mod Traffic
pub mod Nodes
pub mod Legacy
mod Tests
