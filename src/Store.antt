-- ===== src/Store.antt =====
-- src/harness/store.py.
pub mod Tables
pub mod Txn
pub mod Actions
pub mod Lifecycle
pub mod Leases
pub mod Failures
pub mod Rows
pub mod Moves
pub mod Requests
pub mod Keeps
pub mod Log
pub mod Rollback
pub mod Decisions
pub mod Finality
pub mod Retries
pub mod Circuits
pub mod Recovery
pub mod Held
pub mod Completion
pub mod Creation
pub mod Heartbeat
pub mod Identity
pub mod Evolution
pub mod Verdict
pub mod Breaker
pub mod Reports
pub mod Claiming
pub mod Preserve
pub mod Receipts
pub mod Approvals
pub mod Snapshots
pub mod Cards
