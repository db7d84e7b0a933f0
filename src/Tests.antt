-- ===== src/Tests.antt =====
-- Concrete inputs, and the theorems at them.
pub mod Sample
mod Messages
mod Peers
mod Names
mod Sockets
mod Agent
mod Requests
mod Hosts
