-- ===== src/Paths.antt =====
-- The paths that the agent may manage: agent/policy/path.go.
pub mod Text
pub mod Policy
pub mod Split
pub mod Within
