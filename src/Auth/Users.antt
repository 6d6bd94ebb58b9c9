-- ===== src/Auth/Users.antt =====
-- services/auth/controllers/users.controller.js.
mod Lookup
mod Profile
mod Password
unfoldable pub use Lookup.*
unfoldable pub use Profile.*
unfoldable pub use Password.*
