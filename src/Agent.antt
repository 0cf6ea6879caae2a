-- ===== src/Agent.antt =====
-- The privileged agent of agent/operations, as far as it guards the host by fences.
pub mod Fences
pub mod Dispatch
pub mod Order
pub mod Once
pub mod Restart
