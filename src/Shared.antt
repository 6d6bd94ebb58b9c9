-- ===== src/Shared.antt =====
-- services/shared: what every service uses.
pub mod Json
pub mod Validation
pub mod Numbers
pub mod Hex
pub mod Events
pub mod Paging
pub mod Health
mod Tests
pub mod RequestContext
