-- ===== src/Vault.antt =====
-- The files of a vault, sdk/sdk-core/src/byo.
pub mod Body
pub mod Slots
pub mod Header
pub mod Journal
