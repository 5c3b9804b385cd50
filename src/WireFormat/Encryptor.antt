-- ===== src/WireFormat/Encryptor.antt =====
-- `V7StreamEncryptor::push` and `finalize` of sdk/sdk-core/src/crypto/wire_format.rs.
use wattcloud.Common.{ℕ, ◌+◌, ◌%◌, ◌^◌, ◌++◌, Result, ok, err, ◌==◌, if◌then◌else◌, length}
use wattcloud.Common.Bytes.{Bytes, to_le4, max_u32}
use wattcloud.WireFormat.Crypto.{
  Crypto, CryptoError, invalid_format, chunk_index_overflow, HmacSha256, update, finalize_mac,
  aes_gcm_encrypt_with_nonce, v7_chunk_nonce,
}

pub record Encryptor : Type 0 where
  pub file_iv : Bytes
  pub content_key : Bytes
  pub hmac : HmacSha256
  pub chunk_index : ℕ

-- The wire frame of a ciphertext: its length with the nonce, the nonce, the ciphertext.
abbrev pub frame_of : Bytes → Bytes → Bytes
frame_of nonce ct = to_le4 ((12 + length ct) % 2 ^ 32) ++ (nonce ++ ct)

module _ (c : Crypto) where
  -- `encrypt_file_v7_chunk`
  abbrev pub encrypt_file_v7_chunk : Bytes → Bytes → Bytes → ℕ → Result CryptoError Bytes
  encrypt_file_v7_chunk chunk content_key file_iv chunk_index =
      aes_gcm_encrypt_with_nonce c chunk content_key (v7_chunk_nonce file_iv chunk_index)

  -- The state once `ct` is fed to the HMAC, and once the chunk is counted.
  abbrev pub fed : Encryptor → Bytes → Encryptor
  fed e ct = record e { hmac = update (update e.hmac (to_le4 e.chunk_index)) ct }

  -- `push`: the state changes before the overflow of `chunk_index` is refused.
  unfoldable pub push : Encryptor → Bytes → Encryptor × Result CryptoError Bytes
  push e plaintext = elim (encrypt_file_v7_chunk plaintext e.content_key e.file_iv e.chunk_index) [
    | err x ↦ (e, err x)
    | ok ct ↦
        if e.chunk_index == max_u32
        then (fed e ct, err (invalid_format chunk_index_overflow))
        else (
          record (fed e ct) { chunk_index = e.chunk_index + 1 },
          ok (frame_of (v7_chunk_nonce e.file_iv e.chunk_index) ct),
        )
  ]

  -- `position`
  abbrev pub position : Encryptor → ℕ
  position e = e.chunk_index

  -- `finalize`
  abbrev pub finalize : Encryptor → Bytes
  finalize e = finalize_mac c e.hmac
