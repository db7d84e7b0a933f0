-- ===== src/Frontend.antt =====
-- The request dispatcher of the agent (SocketFrontend in agent/src/backend/SocketFrontend.cpp and its
-- header).
pub mod Errors
pub mod SignOptions
pub mod Request
pub mod State
pub mod Gates
pub mod Cards
pub mod Signing
pub mod Records
pub mod Config
pub mod Trust
pub mod Broker
pub mod Dispatch
pub mod Contract
pub mod Confirmations
pub mod Ownership
pub mod Values
pub mod Departure
pub mod Resolution
