-- ===== src/Examples.antt =====
-- The theorems on a small directory.
pub mod Data
pub mod Codes
pub mod Refresh
pub mod Devices
pub mod Audit
pub mod Grants
pub mod Keys
pub mod Deleted
pub mod Delegation
pub mod Authorize
pub mod Logout
pub mod Token
pub mod Lifetimes
