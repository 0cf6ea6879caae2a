-- ===== src/Store/Rows.antt =====
-- The plain reads and writes of the in-memory store (internal/store/memory.go). A read returns the
-- stored row; the copy that the program makes of it is the value itself.
pub mod Common
pub mod Tenant
pub mod Site
pub mod Zones
pub mod Mail
pub mod Access
