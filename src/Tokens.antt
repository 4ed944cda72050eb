-- ===== src/Tokens.antt =====
-- internal/tokens/service.go: the grant artifacts of the token service.
pub mod Types
pub mod Codes
pub mod Rotation
pub mod Minting
pub mod Validation
pub mod Keys
pub mod History
pub mod Lifetimes
