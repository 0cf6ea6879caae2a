-- ===== src/Store.antt =====
-- The in-memory store (internal/store/memory.go and the files that add methods to `Memory`).
pub mod Models
pub mod Memory
pub mod Op
pub mod Normal
pub mod Jobs
pub mod Leases
pub mod Members
pub mod Accounts
pub mod Commit
pub mod Rows
pub mod Cascade
pub mod Restores
pub mod Resources
pub mod Imports
