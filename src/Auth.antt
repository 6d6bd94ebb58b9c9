-- ===== src/Auth.antt =====
-- services/auth: the accounts.
pub mod Record
pub mod Platform
pub mod Tables
pub mod Session
pub mod Reset
pub mod Users
pub mod Access
pub mod Effects
pub mod Register
pub mod Granted
pub mod Attempts
pub mod Resetting
pub mod Forgotten
pub mod Changes
pub mod Updates
pub mod Deletion
pub mod Permissions
pub mod Answering
pub mod Memory
pub mod RedisAttempts
pub mod LoginAttempts
pub mod Csrf
mod Sample
mod AccountTests
mod RouteTests
mod RedisTests
mod Tests
