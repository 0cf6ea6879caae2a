-- ===== src/Tests.antt =====
-- Concrete stores and calls, on which the theorems of Store are applied.
pub mod Data
pub mod Quotas
pub mod Deletions
pub mod Agents
pub mod Leases
pub mod Tenants
pub mod Resources
pub mod Updates
pub mod PathPolicy
pub mod Capabilities
pub mod Imports
