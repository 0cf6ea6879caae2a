-- ===== src/Store/Models.antt =====
-- The data model of internal/store/models.go. A `time.Time` is the number of nanoseconds since
-- Go's zero time, so `IsZero` is the test for 0; a pointer is an Option; a float64 that the
-- program never computes with is its bit pattern.
mod Payload
mod Tenant
mod Site
mod Mail
mod Work
pub use Payload.*
pub use Tenant.*
pub use Site.*
pub use Mail.*
pub use Work.*
