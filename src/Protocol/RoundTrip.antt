-- ===== src/Protocol/RoundTrip.antt =====
-- Each message of wire/PrompterProtocol.cpp, encoded and parsed again.
mod Common
pub mod Statuses
pub mod Prompt
pub mod Secrets
pub mod Confirm
pub mod Replies
pub mod Answers
pub mod Others
