-- ===== src/Lib.antt =====
-- Wattcloud: the file format, streaming, manifest, vault, moves between providers, and the relay
--
-- Wattcloud keeps files in the user's own cloud storage, encrypted on the device. The Rust library
-- sdk/sdk-core encrypts and decrypts; byo-relay is the server that lets a browser reach storage that it
-- cannot reach itself, and hosts shares. A file goes through `ByoUploadFlow`, which frames and encrypts
-- its chunks (`V7StreamEncryptor`) behind a header made by the hybrid KEM; a `ChunkWriter` cuts the
-- ciphertext into the parts of a provider; a download takes the pieces of the network through
-- `ByoDownloadFlow`, which buffers the header, holds back the footer (`FooterTrimmer`) and opens the
-- frames (`V7StreamDecryptor`). The providers of a user are listed in a manifest, copies of which the
-- devices merge. The relay guards itself with counters in memory.
--
-- Common: names passed on, Boolean tests, lists over native numbers, Rust's `Result` (Common/Errors),
--   bytes and little-endian words (Common/Bytes, with `constant_time_eq` of
--   sdk/sdk-core/src/crypto/hashing.rs), hash maps as association lists (Common/Maps), sums.
--
-- WireFormat: sdk/sdk-core/src/crypto.
--   Crypto: symmetric.rs, hashing.rs, kdf.rs and constants.rs. The ciphers, MACs, hashes and KEMs of
--     third-party crates are the record `Crypto`, an argument of every definition; `Lawful` is what the
--     code relies on: opening undoes sealing, the sizes of tags and digests, key agreement.
--   Kem: pqc.rs, `hybrid_encapsulate_v6` and `hybrid_decapsulate_v6`. Randomness is an argument.
--   Header: `encrypt_file_v7_init`, `decrypt_file_v7_init`, `V7StreamEncryptor::new` (`new_encryptor`)
--     and `V7StreamDecryptor::new` (`new_decryptor`) of wire_format.rs.
--   Encryptor, Decryptor: `V7StreamEncryptor`, `V7StreamDecryptor`. The decryptor's loop is on fuel, the
--     length of its buffer and one more; a round takes 16 bytes at least, so that is enough.
--   WholeFile: `encrypt_file_v7`; WholeFile/Decrypt: `decrypt_file_v7`, whose loop is on fuel, the length
--     of the file, and where `none` is a panic of a slice; WholeFile/RoundTrip: proofs.
--   Share: `encrypt_manifest_v7`, its loop on fuel, the length of the manifest and one more, and
--     `V7ShareDecryptor`; Share/RoundTrip: proofs.
--   FooterTrimmer: `FooterTrimmer`. Frames, Stream, Stream/Run, Stream/RoundTrip: proofs about series.
--
-- Streaming: sdk/sdk-core/src/byo/streaming.
--   ChunkWriter: chunk_writer.rs; the callback is a state-passing parameter. The loop of `write` is on
--     fuel, the number of bytes, and running out would be the error `stuck`, which the abstract writer
--     of ChunkWriter/Feed has no way to return. ChunkWriter/Refine and ChunkWriter/Output: proofs.
--   UploadFlow, DownloadFlow: upload_flow.rs (with `v7_cipher_size` of wire_format.rs), download_flow.rs.
--     `upload` and `download` are the calls as a caller makes them, in a row up to the first error (Flow).
--   EndToEnd, EndToEnd/RoundTrip: the two flows together.
--
-- Manifest: sdk/sdk-core/src/byo/manifest.rs. Validate: `validate_manifest` and the predicate `IsValid`.
--   Primary, Primary/Unique: `enforce_primary_uniqueness`. Merge, Merge/Winners: `merge_manifests`, over
--   an association list in the order of insertion (the order of a hash map's values is any). Mutations,
--   with Validity, Promotion and Edits: the five helpers that change a manifest; the theorems about them take
--   times that are u64.
--
-- RateLimit: byo-relay/src/rate_limit.rs. Instants are natural numbers, the clock is an argument, and a
--   step is what runs under one lock; `record_host`, `register` and `release` take two. Window, Window/Bound, Window/Growth: the sliding
--   windows. Budget: the bytes of a day. Slots: SFTP connections, whose guards are a list of live keys.
--   Failures, Failures/Events,
--   Failures/Blocks, Failures/Limit: authentication failures and host spraying. Storage,
--   Storage/Held, Storage/Interleaved: the aggregate of stored shares, over calls that interleave;
--   Storage/Conservation: its sums, over calls one after the other. Downloads: `ShareConcurrencyTracker`, whose
--   atomic operations are the steps of a relation.
--
-- Vault: sdk/sdk-core/src/byo. Body: vault_body.rs; the fresh nonce is an argument.
--   Slots, Header: vault_format.rs, the device slots and the header of formats 2 and 1 (`parse`,
--     `to_bytes`). The fixed arrays are lists of bytes, and `IsWellFormed` has their lengths. Header/Layout,
--     Header/RoundTrip, Header/Accepted, Header/Lookup: proofs.
--   Journal: vault_journal.rs (`serialize_entry`, `parse_journal`, `build_journal_file`). The loop is on
--     fuel, the length of the journal; each entry has 32 bytes at least, so that is enough
--     (Journal/Authentic). Journal/Entries, Journal/RoundTrip: proofs.
--
-- Move: sdk/sdk-core/src/byo/cross_provider_move, the plans of mod.rs, `decide_replay` of execution.rs and
--   `plan_reconcile` of reconciler.rs; Move/Reconcile: proofs.
--
-- Session: sdk/sdk-core/src/byo. Plans: multi_vault.rs. Monitor: offline_monitor.rs; floating point is a
--   parameter, of which `IsExact` is assumed: products of at most 53 bits are exact.
--
-- Relay: byo-relay/src. Channel: channel.rs; the two locks that a message takes are taken as one.
--   Channel/Limits, Channel/Registry, Channel/Stale: proofs. IpFilter: ip_filter.rs, with the list of
--   blocks in IpFilter/Blocks. Store: share_store.rs; its SQL statements are functions on lists of rows,
--   and a purge is its three parts, so that other calls come in between. Store/Totals, Store/Owned,
--   Store/Tokens: proofs.
--
-- Examples: concrete runs, over ciphers that are lawful and hide nothing.
--
-- Not modelled: secrecy (the ciphers are opaque functions) and zeroing of memory on drop; JSON (the
-- manifest's, the WAL's and the rows of merge_rows.rs) and the encryption of the manifest;
-- `disk_usage_percent` and `share_slow_start_bps` of the relay; the files of the share store, the
-- host that executes a move (frontend/src/lib/byo/ByoDataProvider.ts), the sockets and timers of the channels; the providers' clients, the relay's handlers, the WebAssembly
-- bindings and the frontend, which are input and output.
pub mod Common
pub mod WireFormat
pub mod Streaming
pub mod Manifest
pub mod Vault
pub mod Move
pub mod Session
pub mod RateLimit
pub mod Relay
pub mod Examples
