-- ===== src/Transferd.antt =====
-- The transfer daemon: src/transferd.
pub mod State
pub mod Runtime
pub mod Automation
pub mod Service
pub mod Refusal
pub mod Completion
pub mod Download
pub mod Container
pub mod Stored
pub mod Sending
pub mod Silence
pub mod Sends
pub mod Steps
pub mod Awaited
pub mod Panics
