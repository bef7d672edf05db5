-- ===== src/App.antt =====
-- src/harness/app.py.
pub mod Http
pub mod Answers
pub mod Handlers
pub mod Paths
pub mod Guards
pub mod Refine
pub mod Errors
pub mod Access
pub mod Admission
