-- ===== src/Examples.antt =====
-- Concrete runs of the components.
pub mod Ciphers
pub mod Files
pub mod Providers
pub mod Limits
pub mod Vaults
pub mod Relays
pub mod Sessions
