-- ===== src/WireFormat/Share.antt =====
-- `encrypt_manifest_v7` and `V7ShareDecryptor` of sdk/sdk-core/src/crypto/wire_format.rs: the
-- manifest of a bundle share. `push` and `finalize` of the share decryptor are, statement by
-- statement, those of the stream decryptor, and its fields are the same.
pub mod RoundTrip
use wattcloud.Common.{
  ℕ, zero, suc, ◌+◌, not, true, false, [], ◌++◌, Result, ok, err, ◌>>=◌, ◌>>◌, reject_if, ◌==◌, ltb,
  length, take, drop, slice, flatten, replicate,
}
use wattcloud.Common.Bytes.{Bytes, first_byte, constant_time_eq}
use wattcloud.WireFormat.Crypto.{
  Crypto, CryptoError, invalid_format, unsupported_version, header_prefix_too_short,
  invalid_nonce_length, invalid_key_material, key_commitment_failed, hkdf_sha256, new_from_slice,
  chunk_hmac_v1, v7_header_min, v7_encrypt_chunk_size, file_format_v7,
}
use wattcloud.WireFormat.Encryptor.{Encryptor}
use wattcloud.WireFormat.Encryptor
use wattcloud.WireFormat.Decryptor.{Decryptor}
use wattcloud.WireFormat.Decryptor
use wattcloud.WireFormat.Header.{EncryptInit, header_fields}

abbrev pub ShareDecryptor : Type 0
ShareDecryptor = Decryptor

module _ (c : Crypto) where
  -- The fields of the header: those of a file, with zeros for the KEM and the wrapped key.
  abbrev pub share_init : Bytes → Bytes → EncryptInit
  share_init content_key file_iv = record {
    file_iv = file_iv;
    eph_x25519_pub = replicate 32 0;
    mlkem_ct = replicate 1568 0;
    encrypted_file_key = replicate 60 0;
    key_commitment = c.blake2b (content_key ++ file_iv);
    content_key = content_key;
  }

  -- The `loop`, from the bytes `manifest[offset..]` on: a round does what `push` of the stream
  -- encryptor does, and the last one leaves nothing. A round that is not the last takes a byte.
  unfoldable pub encrypt_manifest_loop :
      ℕ → Encryptor → Bytes → Bytes → Result CryptoError (Encryptor × Bytes)
  encrypt_manifest_loop zero e rest out = ok (e, out)
  encrypt_manifest_loop (suc fuel) e rest out =
      elim (Encryptor.push c e (take v7_encrypt_chunk_size rest)).1 [
        | err x ↦ err x
        | ok frame ↦ elim (length (drop v7_encrypt_chunk_size rest) == 0) [
          | true ↦ ok ((Encryptor.push c e (take v7_encrypt_chunk_size rest)).0, out ++ frame)
          | false ↦
              encrypt_manifest_loop fuel (Encryptor.push c e (take v7_encrypt_chunk_size rest)).0
                (drop v7_encrypt_chunk_size rest) (out ++ frame)
        ]
      ]

  -- `encrypt_manifest_v7`, with the nonce that it generates as an argument.
  unfoldable pub encrypt_manifest_v7 : Bytes → Bytes → Bytes → Result CryptoError Bytes
  encrypt_manifest_v7 manifest content_key file_iv = do
    hmac_key ← hkdf_sha256 c content_key chunk_hmac_v1 32
    hmac ← new_from_slice c hmac_key
    (e, out) ←
        encrypt_manifest_loop (suc (length manifest))
          (record { file_iv = file_iv; content_key = content_key; hmac = hmac; chunk_index = 0 })
          manifest (flatten (header_fields (share_init content_key file_iv)))
    ok (out ++ Encryptor.finalize c e)

  -- `V7ShareDecryptor::new`: the decryptor and the end of the header.
  unfoldable pub new_share_decryptor : Bytes → Bytes → Result CryptoError (ShareDecryptor × ℕ)
  new_share_decryptor header_bytes content_key = do
    reject_if (ltb (length header_bytes) v7_header_min) (invalid_format header_prefix_too_short)
    reject_if (not (first_byte header_bytes == file_format_v7))
        (unsupported_version (first_byte header_bytes))
    let file_iv = slice 1 13 header_bytes
    reject_if (not (length file_iv == 12)) invalid_nonce_length
    reject_if (not (length content_key == 32)) invalid_key_material
    reject_if
        (not (constant_time_eq (c.blake2b (content_key ++ file_iv)) (slice 1677 1709 header_bytes)))
        key_commitment_failed
    hmac_key ← hkdf_sha256 c content_key chunk_hmac_v1 32
    hmac ← new_from_slice c hmac_key
    ok (
      record {
        file_iv = file_iv;
        content_key = content_key;
        hmac = hmac;
        chunk_index = 0;
        buf = drop v7_header_min header_bytes;
      },
      v7_header_min,
    )

  -- `V7ShareDecryptor::push`
  abbrev pub push : ShareDecryptor → Bytes → ShareDecryptor × Result CryptoError Bytes
  push d bytes = Decryptor.push c d bytes

  -- `V7ShareDecryptor::finalize`
  abbrev pub finalize : ShareDecryptor → Bytes → Result CryptoError (Unit {0})
  finalize d stored_hmac = Decryptor.finalize c d stored_hmac
