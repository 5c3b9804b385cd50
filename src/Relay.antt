-- ===== src/Relay.antt =====
-- byo-relay/src: the enrollment channels, the addresses that the relay refuses, and the store of shares.
pub mod Channel
pub mod IpFilter
pub mod Store
