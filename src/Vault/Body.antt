-- ===== src/Vault/Body.antt =====
-- sdk/sdk-core/src/byo/vault_body.rs: the body of a vault. The fresh nonce is an argument.
use wattcloud.Common.{
  ◌+◌, ◌≡◌, refl, sym, ap, ◌∙◌, false, ◌++◌, Result, ok, ◌>>=◌, ◌>>◌, reject_if, >>=-eq-ok,
  ok_or-eq-ok, ok-injective, ltb, length, take, drop, length-append, take-append, drop-append,
  arith,
}
use wattcloud.Common.Bytes.{Bytes}
use wattcloud.WireFormat.Crypto.{
  Crypto, Lawful, CryptoError, encryption_failed, invalid_format, blob_too_short,
  aes_gcm_encrypt_with_nonce, aes_gcm_decrypt,
}

module _ (c : Crypto) where
  -- `encrypt_body`
  unfoldable pub encrypt_body : Bytes → Bytes → Bytes → Result CryptoError Bytes
  encrypt_body plaintext aead_key nonce = do
    ct ← aes_gcm_encrypt_with_nonce c plaintext aead_key nonce
    ok (nonce ++ ct)

  -- `decrypt_body`
  unfoldable pub decrypt_body : Bytes → Bytes → Result CryptoError Bytes
  decrypt_body blob aead_key = do
    reject_if (ltb (length blob) 28) (invalid_format blob_too_short)
    aes_gcm_decrypt c (drop 12 blob) (take 12 blob) aead_key

  -- A body that was encrypted under a nonce of 12 bytes has 28 bytes more than its plaintext, and
  -- decrypts under the same key to it.
  pub decrypt_body-encrypt_body :
      (law : Lawful c) (plaintext aead_key nonce blob : Bytes)
      → length nonce ≡ 12
      → encrypt_body plaintext aead_key nonce ≡ ok blob
      → (decrypt_body blob aead_key ≡ ok plaintext) × (length blob ≡ length plaintext + 28)
  unfolding encrypt_body decrypt_body
  decrypt_body-encrypt_body law plaintext aead_key nonce blob twelve h =
      let (ct, a, b) = >>=-eq-ok (aes_gcm_encrypt_with_nonce c plaintext aead_key nonce) _ h in
      let sealed = ok_or-eq-ok (c.gcm_encrypt aead_key nonce plaintext) encryption_failed a in
      let whole : nonce ++ ct ≡ blob = ok-injective b in
      let size : length blob ≡ length plaintext + 28 =
        omega
          (arith, ap length whole, length-append nonce ct, law.tag_length _ _ _ _ sealed, twelve) in
      let long : ltb (length blob) 28 ≡ false = ground (arith, size) in
      let front : take 12 blob ≡ nonce =
        ap (take 12) (sym whole) ∙ take-append 12 nonce ct (sym twelve) in
      let behind : drop 12 blob ≡ ct =
        ap (drop 12) (sym whole) ∙ drop-append 12 nonce ct (sym twelve) in
      (rw (long, front, behind, law.opens _ _ _ _ sealed, decrypt_body) refl, size)
