-- ===== src/Protocol.antt =====
-- The messages between the agent and its prompter helper (agent/src/backend/wire/PrompterProtocol.cpp
-- and its header): what each is, how it is written and how it is read.
pub mod Messages
pub mod Fields
pub mod Encode
pub mod Decode
pub mod RoundTrip
pub mod Strict
pub mod Gate
pub mod Bounds
pub mod Display
