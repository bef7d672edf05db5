-- ===== src/Watcher.antt =====
-- src/harness/nas_watcher.py.
pub mod Client
pub mod Run
pub mod Pilot
pub mod Ending
pub mod Deadline
pub mod Ownership
pub mod Offer
pub mod Service
