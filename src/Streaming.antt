-- ===== src/Streaming.antt =====
-- sdk/sdk-core/src/byo/streaming: the buffers and flows between the V7 codec and a provider.
pub mod ChunkWriter
pub mod Flow
pub mod UploadFlow
pub mod DownloadFlow
pub mod EndToEnd
