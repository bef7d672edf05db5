-- ===== src/Cockpit.antt =====
-- src/harness/cockpit.py: the read-only view of the operators.
pub mod Models
pub mod Rows
pub mod Panels
pub mod Flow
pub mod Risk
