-- ===== src/Streaming/UploadFlow.antt =====
-- sdk/sdk-core/src/byo/streaming/upload_flow.rs, and `v7_cipher_size` of
-- sdk/sdk-core/src/crypto/wire_format.rs.
use wattcloud.Common.{
  ℕ, ◌+◌, ◌*◌, ◌-◌, ◌/◌, Bool, true, not, ◌&&◌, List, Result, ok, err, ◌>>=◌, map_err, ◌==◌,
  if◌then◌else◌, length,
}
use wattcloud.Common.Bytes.{Bytes}
use wattcloud.WireFormat.Crypto.{
  Crypto, invalid_format, finalize_before_last, v7_header_min, v7_footer_len, v7_frame_overhead,
  v7_encrypt_chunk_size,
}
use wattcloud.WireFormat.Kem.{Randomness}
use wattcloud.WireFormat.Header.{new_encryptor}
use wattcloud.WireFormat.Encryptor.{Encryptor}
use wattcloud.WireFormat.Encryptor
use wattcloud.Streaming.Flow.{
  SdkError, crypto, invalid_byo_chunk_size, upload_already_finalized, call_all,
}

-- `v7_cipher_size`; `div_ceil` written out. The sizes are below 2 ^ 64 for every real file.
unfoldable pub v7_cipher_size : ℕ → ℕ → ℕ
v7_cipher_size plaintext_len chunk_size =
    if plaintext_len == 0
    then v7_header_min + v7_footer_len
    else (let n = (plaintext_len + chunk_size - 1) / chunk_size in
        v7_header_min + n * v7_frame_overhead + plaintext_len + v7_footer_len)

pub record UploadFlow : Type 0 where
  pub encryptor : Encryptor
  pub last_pushed : Bool

module _ (c : Crypto) where
  -- `ByoUploadFlow::new`: the flow, the header and the total ciphertext size.
  unfoldable pub new : Bytes → Bytes → ℕ → Randomness → Result SdkError (UploadFlow × Bytes × ℕ)
  new mlkem_pub x25519_pub plaintext_len r = do
    (encryptor, header) ← map_err crypto (new_encryptor c mlkem_pub x25519_pub r)
    ok (
      record { encryptor = encryptor; last_pushed = plaintext_len == 0 },
      header,
      v7_cipher_size plaintext_len v7_encrypt_chunk_size,
    )

  -- `push_chunk`: a plaintext chunk, and whether it is the last.
  unfoldable pub push_chunk : UploadFlow → Bytes × Bool → UploadFlow × Result SdkError Bytes
  push_chunk flow (plaintext, is_last) =
      if not is_last && not (length plaintext == v7_encrypt_chunk_size)
      then (flow, err invalid_byo_chunk_size)
      else if flow.last_pushed
      then (flow, err upload_already_finalized)
      else (
        record {
          encryptor = (Encryptor.push c flow.encryptor plaintext).0;
          last_pushed = if is_last then true else flow.last_pushed;
        },
        map_err crypto (Encryptor.push c flow.encryptor plaintext).1,
      )

  -- `finalize`
  unfoldable pub finalize : UploadFlow → Result SdkError Bytes
  finalize flow =
      if flow.last_pushed
      then ok (Encryptor.finalize c flow.encryptor)
      else err (crypto (invalid_format finalize_before_last))

  -- An upload, as a caller makes it: the header, the frames of all chunks, the footer.
  unfoldable pub upload :
      Bytes
      → Bytes
      → ℕ
      → Randomness
      → List (Bytes × Bool)
      → Result SdkError (Bytes × List Bytes × Bytes × ℕ)
  upload mlkem_pub x25519_pub plaintext_len r chunks = do
    (flow, header, total_size) ← new mlkem_pub x25519_pub plaintext_len r
    frames ← (call_all push_chunk flow chunks).1
    footer ← finalize (call_all push_chunk flow chunks).0
    ok (header, frames, footer, total_size)
