-- ===== src/Update.antt =====
-- The update of an installation: internal/update.
pub mod Root
pub mod Transaction
pub mod Rules
pub mod Pending
pub mod Cleanup
pub mod Trail
pub mod Rollback
pub mod Recovery
pub mod Undisturbed
pub mod Copies
pub mod Begin
pub mod Install
pub mod Fresh
pub mod Safe
pub mod Leaves
pub mod Installs
pub mod Outcomes
pub mod Aftermath
pub mod Wedged
pub mod Torn
pub mod Artifacts
