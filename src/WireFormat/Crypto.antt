-- ===== src/WireFormat/Crypto.antt =====
-- sdk/sdk-core/src/crypto: symmetric.rs, hashing.rs and the HKDF of kdf.rs. The ciphers, MACs and
-- KEMs of third-party crates are a parameter, `Crypto`, and `Lawful` is what the code relies on.
use wattcloud.Common.{
  ℕ, ◌+◌, ◌≡◌, Bool, Option, some, [], ◌∷◌, ◌++◌, Result, ok, err, ok_or, length, take, drop,
  if◌then◌else◌,
}
use wattcloud.Common.Bytes.{Bytes, to_le4, codes}
use Prim.Native.Nat.{bit_xor}

-- What an `InvalidFormat` says.
pub data Reason : Type 0 where
  header_prefix_too_short data_too_short header_truncated bad_efk_len bad_efk mlkem_ct_length :
      Reason
  chunk_len_too_small chunk_index_overflow ended_mid_frame footer_wrong_length : Reason
  truncated_chunk_len truncated_chunk trailing_bytes stream_too_short : Reason
  push_after_finalize header_never_complete finalized_twice finalize_before_last : Reason
  blob_too_short : Reason

-- sdk/sdk-core/src/error.rs
pub data CryptoError : Type 0 where
  invalid_format : Reason → CryptoError
  unsupported_version : ℕ → CryptoError
  invalid_key_material encryption_failed decryption_failed kdf_failed : CryptoError
  mac_verification_failed key_commitment_failed invalid_nonce_length : CryptoError
  kem_encap_failed kem_decap_failed : CryptoError

-- The crates aes-gcm, hmac, hkdf, blake2, x25519-dalek and ml-kem.
pub record Crypto : Type 0 where
  -- key, nonce, input
  pub gcm_encrypt : Bytes → Bytes → Bytes → Option Bytes
  pub gcm_decrypt : Bytes → Bytes → Bytes → Option Bytes
  -- key, message
  pub hmac : Bytes → Bytes → Bytes
  pub hmac_accepts : Bytes → Bool
  -- input key material, info, length
  pub hkdf_expand : Bytes → Bytes → ℕ → Option Bytes
  pub blake2b : Bytes → Bytes
  -- secret to public; secret and public to shared
  pub x25519_public : Bytes → Bytes
  pub x25519_shared : Bytes → Bytes → Bytes
  pub mlkem_public : Bytes → Bytes
  -- public and randomness to ciphertext and shared secret; secret and ciphertext to shared secret
  pub mlkem_encapsulate : Bytes → Bytes → Option (Bytes × Bytes)
  pub mlkem_decapsulate : Bytes → Bytes → Option Bytes

pub record Lawful (c : Crypto) : Type 0 where
  pub opens : (k n p ct : Bytes) → c.gcm_encrypt k n p ≡ some ct → c.gcm_decrypt k n ct ≡ some p
  pub tag_length : (k n p ct : Bytes) → c.gcm_encrypt k n p ≡ some ct → length ct ≡ length p + 16
  pub hmac_length : (k m : Bytes) → length (c.hmac k m) ≡ 32
  pub blake2b_length : (m : Bytes) → length (c.blake2b m) ≡ 32
  pub x25519_length : (s : Bytes) → length (c.x25519_public s) ≡ 32
  pub x25519_agrees :
      (s t : Bytes) → c.x25519_shared s (c.x25519_public t) ≡ c.x25519_shared t (c.x25519_public s)
  pub mlkem_agrees :
      (sk r ct ss : Bytes)
      → c.mlkem_encapsulate (c.mlkem_public sk) r ≡ some (ct, ss)
      → c.mlkem_decapsulate sk ct ≡ some ss
  pub mlkem_length :
      (pk r ct ss : Bytes) → c.mlkem_encapsulate pk r ≡ some (ct, ss) → length ct ≡ 1568

-- The running state of an HMAC is its key and what has been fed to it.
pub record HmacSha256 : Type 0 where
  pub key : Bytes
  pub fed : Bytes

abbrev pub update : HmacSha256 → Bytes → HmacSha256
update m bytes = record m { fed = m.fed ++ bytes }

module _ (c : Crypto) where
  abbrev pub new_from_slice : Bytes → Result CryptoError HmacSha256
  new_from_slice key =
      if c.hmac_accepts key then ok (record { key = key; fed = [] }) else err invalid_key_material

  abbrev pub finalize_mac : HmacSha256 → Bytes
  finalize_mac m = c.hmac m.key m.fed

  -- `aes_gcm_encrypt_with_nonce(plaintext, key, nonce)`
  abbrev pub aes_gcm_encrypt_with_nonce : Bytes → Bytes → Bytes → Result CryptoError Bytes
  aes_gcm_encrypt_with_nonce plaintext key nonce =
      ok_or (c.gcm_encrypt key nonce plaintext) encryption_failed

  -- `aes_gcm_decrypt(ciphertext, nonce, key)`
  abbrev pub aes_gcm_decrypt : Bytes → Bytes → Bytes → Result CryptoError Bytes
  aes_gcm_decrypt ciphertext nonce key =
      ok_or (c.gcm_decrypt key nonce ciphertext) decryption_failed

  -- `hmac_sha256(key, data)`
  abbrev pub hmac_sha256 : Bytes → Bytes → Result CryptoError Bytes
  hmac_sha256 key message =
      if c.hmac_accepts key then ok (c.hmac key message) else err invalid_key_material

  -- `hkdf_sha256(ikm, info, output_len)`
  abbrev pub hkdf_sha256 : Bytes → Bytes → ℕ → Result CryptoError Bytes
  hkdf_sha256 ikm info n = ok_or (c.hkdf_expand ikm info n) kdf_failed

abbrev xor_bytes : Bytes → Bytes → Bytes
xor_bytes [] ys = []
xor_bytes (x ∷ xs) [] = []
xor_bytes (x ∷ xs) (y ∷ ys) = bit_xor x y ∷ xor_bytes xs ys

-- `v7_chunk_nonce`: the index in little endian is XORed into the first four bytes.
unfoldable pub v7_chunk_nonce : Bytes → ℕ → Bytes
v7_chunk_nonce file_iv chunk_index =
    xor_bytes (take 4 file_iv) (to_le4 chunk_index) ++ drop 4 file_iv

abbrev pub chunk_hmac_v1 : Bytes
chunk_hmac_v1 = codes "chunk-hmac-v1"

abbrev pub v7_header_min : ℕ
v7_header_min = 1709

abbrev pub v7_footer_len : ℕ
v7_footer_len = 32

abbrev pub v7_frame_overhead : ℕ
v7_frame_overhead = 32

abbrev pub v7_encrypt_chunk_size : ℕ
v7_encrypt_chunk_size = 524288

abbrev pub file_format_v7 : ℕ
file_format_v7 = 7
