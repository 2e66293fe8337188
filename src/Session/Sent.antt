-- ===== src/Session/Sent.antt =====
-- The topics that count as sent: none offline, and none before the auth ack.
pub mod Handlers
pub mod Step
