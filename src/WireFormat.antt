-- ===== src/WireFormat.antt =====
-- sdk/sdk-core/src/crypto/wire_format.rs: the V7 file format, and the primitives that it calls.
pub mod Crypto
pub mod FooterTrimmer
pub mod Encryptor
pub mod Decryptor
pub mod Frames
pub mod Stream
pub mod Kem
pub mod Header
pub mod WholeFile
pub mod Share
