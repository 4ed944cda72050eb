-- ===== src/Identity.antt =====
-- internal/identity: the endpoints of the security token service.
pub mod Errors
pub mod Resources
pub mod Scopes
pub mod Sessions
pub mod Devices
pub mod Approval
pub mod Clients
pub mod Grants
pub mod Delegation
pub mod Authorize
pub mod Logout
pub mod AppOnly
pub mod Token
