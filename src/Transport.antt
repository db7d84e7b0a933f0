-- ===== src/Transport.antt =====
-- The agent's socket transport (agent/src/backend/SocketTransport.cpp): what it has published of the
-- readers and cards, and what it queues for its clients.
pub mod Maps
pub mod Presence
pub mod Connections
pub mod Listener
