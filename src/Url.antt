-- ===== src/Url.antt =====
-- services/url: the URL shortener. The handlers run over `World`: the database, Redis and the
-- message channel, which `Platform` stands for.
pub mod Record
pub mod Platform
pub mod Tables
pub mod Cache
pub mod Page
pub mod Signed
pub mod Redirect
pub mod Domain
pub mod Preview
mod PreviewTests
pub mod Manage
pub mod Memory
pub mod Tests
