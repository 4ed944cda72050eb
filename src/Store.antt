-- ===== src/Store.antt =====
-- internal/store: the tables, and the SQL statements of each repository as functions on them.
pub mod Types
pub mod Directory
pub mod Codes
pub mod Devices
pub mod Sessions
pub mod Logout
pub mod Roles
pub mod Keys
pub mod Deleted
pub mod Refresh
pub mod Family
